-- ===== src/Apn/Shown.antt =====
-- A profile as nmcli shows it, and as it is read (internal/apn/nm.go).
use Prim.Native.Char.{Char, char, code}
use Prim.Native.String.{◌++◌ as append}
use text.Mathlib.TextLemmas.{nil-append, cons-append, append_assoc}
use modem_service.Prelude.{
  String, Bool, true, false, not, ◌&&◌, ◌==◌, ◌≡◌, ◌≢◌, refl, sym, ap, ◌∙◌, some, [], ◌∷◌, str_eq,
  arith, if◌then◌else◌,
}
use modem_service.Apn.{Config, no_config, split_lines, cons_first}
use modem_service.Apn.Nmcli.{
  cut, cut_first, read_line, read_lines, only_newlines, trim_newlines, read_gsm,
}

abbrev newline : Char
newline = char 10 tt

abbrev colon : Char
colon = char 58 tt

-- Whether a text is free of a character.
unfoldable pub free : Char → String → Bool
free x String.[] = true
free x (String.◌∷◌ c s) = not (code c == code x) && free x s

and_true : (a b : Bool) → (not a && b) ≡ true → (a ≡ false) × (b ≡ true)
and_true a b e = ground arith

cons_text : (c : Char) (s : String) → append (String.◌∷◌ c String.[]) s ≡ String.◌∷◌ c s
cons_text c s = cons-append c String.[] s ∙ ap (String.◌∷◌ c) (nil-append s)

split_lines_line :
    (a rest : String)
    → free newline a ≡ true
    → split_lines (append a (String.◌∷◌ newline rest)) ≡ a ∷ split_lines rest
unfolding split_lines free
split_lines_line String.[] rest e = ap split_lines (nil-append (String.◌∷◌ newline rest))
split_lines_line (String.◌∷◌ c s) rest e =
    let (f, g) = and_true (code c == 10) (free newline s) e in
    ap split_lines (cons-append c s (String.◌∷◌ newline rest))
    ∙ ap
        (λ b.
          cons_first b (String.◌∷◌ c String.[]) (split_lines (append s (String.◌∷◌ newline rest))))
        f
    ∙ ap (cons_first false (String.◌∷◌ c String.[])) (split_lines_line s rest g)
    ∙ ap (λ l. l ∷ split_lines rest) (cons_text c s)

split_lines_last : (a : String) → free newline a ≡ true → split_lines a ≡ a ∷ []
unfolding split_lines free
split_lines_last String.[] e = refl
split_lines_last (String.◌∷◌ c s) e =
    let (f, g) = and_true (code c == 10) (free newline s) e in
    ap (λ b. cons_first b (String.◌∷◌ c String.[]) (split_lines s)) f
    ∙ ap (cons_first false (String.◌∷◌ c String.[])) (split_lines_last s g)
    ∙ ap (λ l. l ∷ []) (cons_text c s)

cut_at : (k v : String) → free colon k ≡ true → cut (append k (String.◌∷◌ colon v)) ≡ some (k, v)
unfolding cut free
cut_at String.[] v e = ap cut (nil-append (String.◌∷◌ colon v))
cut_at (String.◌∷◌ c s) v e =
    let (f, g) = and_true (code c == 58) (free colon s) e in
    ap cut (cons-append c s (String.◌∷◌ colon v))
    ∙ ap (λ b. cut_first b c (append s (String.◌∷◌ colon v)) (cut (append s (String.◌∷◌ colon v))))
        f
    ∙ ap (cut_first false c (append s (String.◌∷◌ colon v))) (cut_at s v g)

trim_last :
    (a : String)
    → free newline a ≡ true
    → trim_newlines (append a (String.◌∷◌ newline String.[])) ≡ a
unfolding trim_newlines free
trim_last String.[] e = ap trim_newlines (nil-append (String.◌∷◌ newline String.[]))
trim_last (String.◌∷◌ c s) e =
    let (f, g) = and_true (code c == 10) (free newline s) e in
    let t = append s (String.◌∷◌ newline String.[]) in
    ap trim_newlines (cons-append c s (String.◌∷◌ newline String.[]))
    ∙ ap (λ b. if b && only_newlines t then "" else String.◌∷◌ c (trim_newlines t)) f
    ∙ ap (String.◌∷◌ c) (trim_last s g)

and_false : (b : Bool) → (b && false) ≡ false
and_false true = refl
and_false false = refl

true-ne-false : true ≢ false
true-ne-false = λ e. ground arith

only_newlines_end : (a b : String) → only_newlines b ≡ false → only_newlines (append a b) ≡ false
only_newlines_end String.[] b e = ap only_newlines (nil-append b) ∙ e
only_newlines_end (String.◌∷◌ c s) b e =
    ap only_newlines (cons-append c s b)
    ∙ ap (λ x. (code c == 10) && x) (only_newlines_end s b e)
    ∙ and_false (code c == 10)

trim_end :
    (a b : String)
    → only_newlines b ≡ false
    → trim_newlines (append a b) ≡ append a (trim_newlines b)
unfolding trim_newlines
trim_end String.[] b e = ap trim_newlines (nil-append b) ∙ sym (nil-append (trim_newlines b))
trim_end (String.◌∷◌ c s) b e =
    ap trim_newlines (cons-append c s b)
    ∙ ap (λ x. if (code c == 10) && x then "" else String.◌∷◌ c (trim_newlines (append s b)))
        (only_newlines_end s b e)
    ∙ ap (λ x. if x then "" else String.◌∷◌ c (trim_newlines (append s b)))
        (and_false (code c == 10))
    ∙ ap (String.◌∷◌ c) (trim_end s b e)
    ∙ sym (cons-append c s (trim_newlines b))

free-append :
    (x : Char) (a b : String) → free x a ≡ true → free x b ≡ true → free x (append a b) ≡ true
unfolding free
free-append x String.[] b e f = ap (free x) (nil-append b) ∙ f
free-append x (String.◌∷◌ c s) b e f =
    let (g, h) = and_true (code c == code x) (free x s) e in
    ap (free x) (cons-append c s b)
    ∙ ap (λ y. not y && free x (append s b)) g
    ∙ free-append x s b h f

starts_off :
    (a b : String)
    → str_eq a "" ≡ false
    → free newline a ≡ true
    → only_newlines (append a b) ≡ false
unfolding free
starts_off String.[] b e f = absurd (true-ne-false e)
starts_off (String.◌∷◌ c s) b e f =
    ap only_newlines (cons-append c s b)
    ∙ ap (λ x. x && only_newlines (append s b)) (and_true (code c == 10) (free newline s) f).0

-- A line of the output of `nmcli -t -e no`, and the three lines of a profile.
abbrev pub line : String → String → String
line key value = append key (String.◌∷◌ colon value)

abbrev pub shown : Config → String
shown c = append (line "gsm.apn" c.apn) (
    String.◌∷◌ newline (
      append (line "gsm.username" c.username) (
        String.◌∷◌ newline
          (append (line "gsm.password" c.password) (String.◌∷◌ newline String.[])))))

-- A value that is shown on one line, and is not how an unset value is shown.
abbrev pub IsShowable : String → Type 0
IsShowable v = (free newline v ≡ true) × (str_eq v "--" ≡ false)

line-free :
    (key v : String)
    → free newline key ≡ true
    → free newline v ≡ true
    → free newline (line key v) ≡ true
unfolding free
line-free key v e f = free-append newline key (String.◌∷◌ colon v) e f

line_starts_off :
    (key v b : String)
    → str_eq key "" ≡ false
    → free newline key ≡ true
    → only_newlines (append (line key v) b) ≡ false
line_starts_off key v b e f =
    ap only_newlines (append_assoc key (String.◌∷◌ colon v) b) ∙ starts_off key _ e f

trim_shown :
    (a b c : String)
    → free newline c ≡ true
    → only_newlines (append b (String.◌∷◌ newline (append c (String.◌∷◌ newline String.[]))))
      ≡ false
    → only_newlines (append c (String.◌∷◌ newline String.[])) ≡ false
    → trim_newlines (
        append a (
          String.◌∷◌ newline
            (append b (String.◌∷◌ newline (append c (String.◌∷◌ newline String.[]))))))
      ≡ append a (String.◌∷◌ newline (append b (String.◌∷◌ newline c)))
unfolding trim_newlines
trim_shown a b c e f g =
    let z = append c (String.◌∷◌ newline String.[]) in
    let y = append b (String.◌∷◌ newline z) in
    trim_end a (String.◌∷◌ newline y) f
    ∙ ap (λ x. append a (if x then "" else String.◌∷◌ newline (trim_newlines y))) f
    ∙ ap (λ x. append a (String.◌∷◌ newline x))
        (trim_end b (String.◌∷◌ newline z) g
          ∙ ap (λ x. append b (if x then "" else String.◌∷◌ newline (trim_newlines z))) g
          ∙ ap (λ x. append b (String.◌∷◌ newline x)) (trim_last c e))

split_shown :
    (a b c : String)
    → free newline a ≡ true
    → free newline b ≡ true
    → free newline c ≡ true
    → split_lines (append a (String.◌∷◌ newline (append b (String.◌∷◌ newline c)))) ≡ a ∷ b ∷ c ∷ []
split_shown a b c e f g =
    split_lines_line a _ e
    ∙ ap (λ l. a ∷ l) (split_lines_line b c f ∙ ap (λ l. b ∷ l) (split_lines_last c g))

read_shown :
    (c : Config)
    → str_eq c.apn "--" ≡ false
    → str_eq c.username "--" ≡ false
    → str_eq c.password "--" ≡ false
    → read_lines no_config (
        line "gsm.apn" c.apn ∷ line "gsm.username" c.username ∷ line "gsm.password" c.password ∷ [])
      ≡ record c { auth = "" }
unfolding read_lines read_line free
read_shown c e f g =
    rw
      (
        cut_at "gsm.apn" c.apn refl,
        cut_at "gsm.username" c.username refl,
        cut_at "gsm.password" c.password refl,
        e,
        f,
        g,
      )
      refl

-- The three lines that nmcli shows for a profile are read as that profile, with no authentication,
-- where no value has a line feed in it or is the text "--", which stands for an unset value.
pub read_gsm-shown :
    (c : Config)
    → IsShowable c.apn
    → IsShowable c.username
    → IsShowable c.password
    → read_gsm (some (shown c)) ≡ some (record c { auth = "" })
unfolding read_gsm free
read_gsm-shown c (a, d) (u, e) (p, f) =
    let l1 = line "gsm.apn" c.apn in
    let l2 = line "gsm.username" c.username in
    let l3 = line "gsm.password" c.password in
    let n1 = line-free "gsm.apn" c.apn refl a in
    let n2 = line-free "gsm.username" c.username refl u in
    let n3 = line-free "gsm.password" c.password refl p in
    ap (λ o. some (read_lines no_config (split_lines o)))
      (trim_shown l1 l2 l3 n3 (line_starts_off "gsm.username" c.username _ refl refl)
        (line_starts_off "gsm.password" c.password _ refl refl))
    ∙ ap (λ o. some (read_lines no_config o)) (split_shown l1 l2 l3 n1 n2 n3)
    ∙ ap some (read_shown c d e f)
