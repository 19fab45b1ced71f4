-- ===== src/Examples/Accounts.antt =====
-- Runs of the password accounts.
use h4ckrth0n.Prelude.{
  ◌≡◌, ◌≢◌, refl, String, false, none, some, List, [], ◌∷◌, eq_iff, first, update, contains,
  distinct, present, count,
}
use h4ckrth0n.Json.{Fields, str, end, field, lookup}
use h4ckrth0n.Json.Dumps.{dumps}
use h4ckrth0n.Models.{User, PasswordResetToken}
use h4ckrth0n.Result.{ok}
use h4ckrth0n.Ids.{new_user_id, new_device_id}
use h4ckrth0n.Db.{
  Database, empty, consistent, users_consistent, credentials_consistent, challenges_consistent,
  tokens_consistent, devices_consistent,
}
use h4ckrth0n.Db.Session.{run, commit, ◌>>=◌}
use h4ckrth0n.Http.{crashes}
use h4ckrth0n.Endpoint.{serve}
use h4ckrth0n.Text.{append, tail, lower}
use h4ckrth0n.Text.Base32.{b32encode}
use h4ckrth0n.Passkeys.Ceremonies.Facts.{Raises}
use h4ckrth0n.Auth.Passwords.{
  matches, key_material, register_user, authenticate_user, register_device, confirm_password_reset,
  is_bootstrap_admin, user_by_email, require_password_extra, jwk_fingerprint, add_new_device,
}
use h4ckrth0n.Auth.Passwords.Devices.Later.{one_device_per_key}
use h4ckrth0n.Auth.Passwords.Logins.{registered_logs_in}
use h4ckrth0n.Auth.Passwords.Resets.Once.{
  Call, registers, requests_reset, history, reset_serves_once,
}
use h4ckrth0n.Auth.Passwords.Resets.Login.{with_password, reset_logs_in}
use h4ckrth0n.Auth.Router.{register}
use h4ckrth0n.Auth.Router.Binding.{Unreadable, bad_key_after_registration}
use h4ckrth0n.Examples.{alice, settings, argon, crypto, account_draws, half_key, half_binding}

abbrev address : String
address = "a@b.c"

abbrev carol : User
carol = (record alice { id = "u9"; email = some address; password_hash = some "hash-old" })

abbrev reset_token : PasswordResetToken
reset_token = record {
  id = "t1";
  user_id = "u9";
  token_hash = "secret";
  expires_at = 2000;
  used = false;
  created_at = 1;
}

abbrev town : Database
town = record empty { users = carol ∷ []; reset_tokens = reset_token ∷ [] }

abbrev carol_new : User
carol_new = with_password "hash-new" carol

abbrev after_reset : Database
after_reset = (run (confirm_password_reset crypto account_draws "secret" "new") town).1

reset_goes_through :
    run (confirm_password_reset crypto account_draws "secret" "new") town
    ≡ (ok carol_new, after_reset)
unfolding confirm_password_reset commit ◌>>=◌ require_password_extra first update append consistent
    users_consistent distinct present credentials_consistent challenges_consistent tokens_consistent
    devices_consistent contains
reset_goes_through = refl

abbrev later : List Call
later = requests_reset account_draws address 30 ∷ registers account_draws "d@e.f" "pw" settings ∷ []

reset_serves_once_example :
    Raises
      (run
        (confirm_password_reset crypto account_draws "secret" "other")
        (history crypto after_reset later)).0
reset_serves_once_example =
    reset_serves_once crypto account_draws account_draws "secret" "new" "other" town after_reset
      carol_new later reset_goes_through

hash_not_empty : argon.hash "new" ≢ ""
unfolding append
hash_not_empty = λ e. absurd (let t = (eq_iff (argon.hash "new") "").1 e in cc)

hash_matches : argon.verify (argon.hash "new") "new" ≡ matches
unfolding append
hash_matches = refl

carol_found : user_by_email address town ≡ some carol
unfolding first
carol_found = refl

reset_logs_in_example :
    run (authenticate_user crypto address "new") after_reset
    ≡ (ok (some (with_password (argon.hash "new") carol)), after_reset)
reset_logs_in_example =
    reset_logs_in crypto argon account_draws "secret" "new" address town after_reset carol_new carol
      refl hash_not_empty hash_matches carol_found refl reset_goes_through

abbrev registered_user : User
registered_user = record alice {
  id = "uaaaaaaaaaaaaaaaaaaaaaaaaaaaaaaa";
  role = "admin";
  created_at = 1000;
  email = some address;
  password_hash = some "hash-new";
}

abbrev after_registration : Database
after_registration = (run (register_user crypto account_draws address "new" settings) empty).1

registration_goes_through :
    run (register_user crypto account_draws address "new" settings) empty
    ≡ (ok registered_user, after_registration)
unfolding register_user commit ◌>>=◌ require_password_extra first update append consistent
    new_user_id tail lower b32encode users_consistent distinct present credentials_consistent
    challenges_consistent tokens_consistent devices_consistent contains is_bootstrap_admin count
registration_goes_through = refl

registered_logs_in_example :
    run (authenticate_user crypto address "new") after_registration
    ≡ (ok (some registered_user), after_registration)
registered_logs_in_example =
    registered_logs_in crypto argon account_draws address "new" settings empty after_registration
      registered_user refl hash_not_empty hash_matches registration_goes_through

abbrev whole_key : Fields
whole_key = field "x" (str "1") (field "y" (str "2") half_key)

abbrev marked_key : Fields
marked_key = field "use" (str "sig") whole_key

same_material : key_material marked_key ≡ key_material whole_key
unfolding key_material lookup
same_material = refl

key_not_empty : whole_key ≢ end
key_not_empty = λ e. absurd cc

half_not_empty : half_key ≢ end
half_not_empty = λ e. absurd cc

abbrev after_binding : Database
after_binding = (run (register_device crypto account_draws "u1" (some whole_key) none) empty).1

abbrev device_id : String
device_id = "daaaaaaaaaaaaaaaaaaaaaaaaaaaaaaa"

binding_goes_through :
    run (register_device crypto account_draws "u1" (some whole_key) none) empty
    ≡ (ok device_id, after_binding)
unfolding register_device add_new_device jwk_fingerprint key_material lookup dumps commit ◌>>=◌
    first append consistent new_device_id tail lower b32encode users_consistent distinct present
    credentials_consistent challenges_consistent tokens_consistent devices_consistent contains
binding_goes_through = refl

abbrev requests_between : List Call
requests_between =
    registers account_draws "d@e.f" "new" settings ∷ requests_reset account_draws "d@e.f" 5 ∷ []

one_device_per_key_example :
    run
      (register_device crypto account_draws "u2" (some marked_key) (some "phone"))
      (history crypto after_binding requests_between)
    ≡ (ok device_id, history crypto after_binding requests_between)
one_device_per_key_example =
    one_device_per_key crypto account_draws account_draws "u1" "u2" none (some "phone") whole_key
      marked_key empty after_binding device_id requests_between key_not_empty same_material
      binding_goes_through

half_incomplete : key_material half_key ≡ none
unfolding key_material lookup
half_incomplete = refl

half-Unreadable : Unreadable half_binding
half-Unreadable = record {
  jwk = half_key;
  sent = refl;
  not_empty = half_not_empty;
  incomplete = half_incomplete;
}

abbrev others : Database
others = (run (register_user crypto account_draws "d@e.f" "new" settings) town).1

abbrev other_user : User
other_user = record registered_user { role = "user"; email = some "d@e.f" }

other_goes_through :
    run (register_user crypto account_draws "d@e.f" "new" settings) town ≡ (ok other_user, others)
unfolding register_user commit ◌>>=◌ require_password_extra first update append consistent
    new_user_id tail lower b32encode users_consistent distinct present credentials_consistent
    challenges_consistent tokens_consistent devices_consistent contains is_bootstrap_admin count
other_goes_through = refl

bad_key_after_registration_example :
    serve (register crypto account_draws settings "d@e.f" "new" half_binding) town
    ≡ (crashes, others)
bad_key_after_registration_example =
    bad_key_after_registration crypto account_draws settings "d@e.f" "new" half_binding town others
      other_user half-Unreadable other_goes_through
