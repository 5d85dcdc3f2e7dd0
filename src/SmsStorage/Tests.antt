-- ===== src/SmsStorage/Tests.antt =====
-- The switch at fixed replies (internal/service/sms_storage.go).
use modem_service.Prelude.{ℕ, ◌≡◌, refl, ◌⊎◌, [], ◌∷◌, some, String}
use modem_service.SmsStorage.{
  Match, Storage, Stores, Env, done, failed_after, parse_sms_storage, parse_match,
  recover_full_sms_storage,
}
use modem_service.SmsStorage.Restored.{device, obey_all, Moved, recover_full_sms_storage_restores}

abbrev full : Match
full = record { name = "ME"; used = some 20; capacity = some 20 }

abbrev full_store : Storage
full_store = record { name = "ME"; used = 20; capacity = 20 }

abbrev stores : Stores
stores = record { reading = full_store; writing = full_store; receiving = full_store }

-- The default storage cannot be set.
abbrev env : Env
env = record {
  matches = some (full ∷ full ∷ full ∷ []);
  supported = some (1 ∷ 2 ∷ []);
  previous = some 2;
  probe = done;
  counts = some (3, 30);
  set_default = failed_after;
  final_select = done;
  reset_default = done;
  restore = done;
}

recover_full_sms_storage_restores_example :
    let d = obey_all (recover_full_sms_storage env) (device stores 2) in
    (d ≡ device stores 2) ⊎ ((x : String × ℕ) × Moved stores env d x)
unfolding parse_sms_storage parse_match
recover_full_sms_storage_restores_example =
    recover_full_sms_storage_restores env stores 2 refl refl refl refl
