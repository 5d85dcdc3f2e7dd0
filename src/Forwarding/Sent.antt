-- ===== src/Forwarding/Sent.antt =====
-- What a round of the forwarding loop sends, and when (internal/service/sms_forward.go).
use modem_service.Prelude.{
  ℕ, String, Bool, true, false, not, ◌||◌, ◌==◌, ==_iff, ◌≡◌, ◌⊎◌, inl, inr, refl, ap, ◌∙◌, Option,
  none, some, [], arith, str_eq, if-elim,
}
use modem_service.Forward.{Store, Job, reserve_forward}
use modem_service.Forwarding.{
  Round, Forwarded, reservation, request_of, send_job, forward_reserved, forward_registered,
  forward_found, forward_one, registration_home,
}
use modem_service.Sms.{send}

-- A round that sends: the modem is registered at home, and the message is that of a job that the
-- reservation hands out, to the job's destination.
pub record Sends (e : Round) (s : Store) (r : Forwarded) : Type 0 where
  pub path : String
  pub job : Job
  pub alive : e.ended ≡ false
  pub enabled : e.enabled ≡ true
  pub sim_present : e.sim_present ≡ true
  pub forwarding : str_eq e.destination "off" ≡ false
  pub at_home : e.registration ≡ some registration_home
  pub alive_later : e.ended_later ≡ false
  pub reserved : (reserve_forward (reservation e) s).1 ≡ some job
  pub sent : r.events ≡ (send path (request_of job) e.created e.sent e.deleted).1

abbrev Outcome : Round → Store → Forwarded → Type 0
Outcome e s r = (r.events ≡ []) ⊎ Sends e s r

ready : (a b c : Bool) → (a || not b || not c) ≡ false → (a ≡ false) × (b ≡ true) × (c ≡ true)
ready a b c h = ground arith

on : (a b : Bool) → (a || b) ≡ false → b ≡ false
on a b h = ground arith

module _ (e : Round) (s : Store) (a : e.ended ≡ false) (b : e.enabled ≡ true)
    (c : e.sim_present ≡ true) (d : str_eq e.destination "off" ≡ false) where
  job_sent :
      (path : String) (j : Job) (t : Store)
      → e.registration ≡ some registration_home
      → (reserve_forward (reservation e) s).1 ≡ some j
      → Outcome e s (send_job e path j t)
  unfolding send_job
  job_sent path j t h r =
      if-elim (Outcome e s) e.ended_later _ _ (λ x. inl refl)
        (λ x. inr (record {
          path = path;
          job = j;
          alive = a;
          enabled = b;
          sim_present = c;
          forwarding = d;
          at_home = h;
          alive_later = x;
          reserved = r;
          sent = refl;
        }))

  reserved_sent :
      (path : String) (r : Store × Option Job)
      → e.registration ≡ some registration_home
      → (reserve_forward (reservation e) s).1 ≡ r.1
      → Outcome e s (forward_reserved e path r)
  unfolding forward_reserved
  reserved_sent path (t, none) h r = inl refl
  reserved_sent path (t, some j) h r = job_sent path j t h r

  registered_sent :
      (path : String) (o : Option ℕ)
      → e.registration ≡ o
      → Outcome e s (forward_registered e path o s)
  unfolding forward_registered
  registered_sent path none h = inl refl
  registered_sent path (some n) h =
      if-elim (Outcome e s) (n == registration_home) _ _
        (λ x. reserved_sent path _ (h ∙ ap some ((==_iff n registration_home).0 x)) refl)
        (λ x. inl refl)

  found_sent : (o : Option String) → Outcome e s (forward_found e o s)
  unfolding forward_found
  found_sent none = inl refl
  found_sent (some path) = registered_sent path e.registration refl

-- A round that calls for a message at all has a service that is not ending before or after the
-- reservation, a modem that is enabled, a SIM, a destination other than "off" and a modem that is
-- registered at home; and its calls are those of one `Send`, with the text and the destination of the
-- job that the reservation hands out.
pub forward_one-Sends :
    (e : Round) (s : Store) → ((forward_one e s).events ≡ []) ⊎ Sends e s (forward_one e s)
unfolding forward_one
forward_one-Sends e s =
    if-elim (Outcome e s) (e.ended || not e.enabled || not e.sim_present) _ _ (λ x. inl refl)
      (λ x.
        let (a, b, c) = ready e.ended e.enabled e.sim_present x in
        if-elim (Outcome e s) (str_eq e.destination "" || str_eq e.destination "off") _ _
          (λ y. inl refl) (λ y. found_sent e s a b c (on (str_eq e.destination "") _ y) e.modem))
