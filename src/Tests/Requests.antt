-- ===== src/Tests/Requests.antt =====
-- A person asks to join with a phone, proves the email and the number, and is approved.
use agroassure.Prelude.{
  ◌≤◌, true, none, some, [], ◌∷◌, ◌≡◌, refl, Text, codes, text_eq, filter, find,
}
use agroassure.Hashing.Base64.{base64_to_bytes, decode_from, is_b64, b64_lookup}
use agroassure.Access.{
  Role, inspector, Device, revoked, Registration, Register, ok, pending, verifying, is_device,
  is_unscoped,
}
use agroassure.Access.Codes.{
  email, sms, trim, normalize_phone, is_email, hash_code, hash_status_token,
}
use agroassure.Access.Custody.History.{Served, Served-StaysRevoked}
use agroassure.Access.Directory.{resolve_phone, touch_phone}
use agroassure.Access.Nationals.{nationals, nationals-Guarded}
use agroassure.Access.People.{CreateUserInput, create_user, grant_role}
use agroassure.Access.Phones.{parse_public_key}
use agroassure.Access.Registrations.{
  available, six_digits, is_lawful, one_open_each, keep_lawful, load, is_registration,
}
use agroassure.Access.Registrations.Asking.{
  StartInput, StartDraw, new_registration, insert_registration, start_registration,
}
use agroassure.Access.Registrations.Verifying.{
  Typed, Verified, described, wrong_code, check_codes, write_checked, verify_loaded, verify,
}
use agroassure.Access.Registrations.Decisions.{ApproveDraw, Approval, approve_row, approve}
use agroassure.Access.Registrations.Tables.{Asked, OnlyRequests, asked-GrantsNothing}
use agroassure.Access.Registrations.Bounded.{Guessed, guesses-Bounded}
use agroassure.Access.Registrations.Proven.{Proven, verify-Proves}
use agroassure.Access.Registrations.Admitted.{approve-OpensSession}
use agroassure.Tests.Access.{config, place, admin, register, stamp, key64, value}
use agroassure.Prelude.{decimal, split_on, replicate}

abbrev input : StartInput
input = record {
  full_name = codes "Bola Ade";
  email = codes "bola@x.ng";
  phone = codes "08031234567";
  jurisdiction_id = place;
  from_app = true;
  public_key_base64 = some key64;
}

abbrev drawn : StartDraw
drawn = record {
  stamp = stamp (codes "r1") 1000;
  token = codes "t";
  email_draw = 7;
  sms_draw = 123456;
}

abbrev asked : (Text × Text) × Register
asked = value ((([], [])), register) (start_registration config input drawn register)

asked_run : start_registration config input drawn register ≡ ok asked
unfolding start_registration available trim is_email split_on normalize_phone parse_public_key
    base64_to_bytes decode_from is_b64 b64_lookup text_eq keep_lawful is_lawful one_open_each
    new_registration hash_status_token hash_code six_digits decimal insert_registration
asked_run = refl

abbrev one_wrong : Typed
one_wrong = record { email_code = some (codes "000007"); sms_code = some (codes "000000") }

abbrev tried : Verified × Register
tried =
    value (wrong_code [], register) (verify config (codes "r1") (codes "t") one_wrong 2000 asked.1)

tried_run : verify config (codes "r1") (codes "t") one_wrong 2000 asked.1 ≡ ok tried
unfolding start_registration available trim is_email split_on normalize_phone parse_public_key
    base64_to_bytes decode_from is_b64 b64_lookup text_eq keep_lawful is_lawful one_open_each
    new_registration hash_status_token hash_code six_digits decimal insert_registration verify
    verify_loaded load check_codes write_checked
tried_run = refl

guesses-Bounded_example : 1 ≤ 40
unfolding start_registration available trim is_email split_on normalize_phone parse_public_key
    base64_to_bytes decode_from is_b64 b64_lookup text_eq keep_lawful is_lawful one_open_each
    new_registration hash_status_token hash_code six_digits decimal insert_registration verify
    verify_loaded load check_codes write_checked
guesses-Bounded_example =
    guesses-Bounded config input drawn register asked.1 tried.1 (codes "r1") (codes "t") 1 asked_run
      (Guessed.typed Guessed.begun (codes "t") one_wrong 2000 tried_run)

asked-GrantsNothing_example : OnlyRequests register asked.1
asked-GrantsNothing_example =
    asked-GrantsNothing config register asked.1 (Asked.started Asked.nothing input drawn asked_run)

abbrev right : Typed
right = record { email_code = none; sms_code = some (codes " 123456") }

abbrev proved : Verified × Register
proved = value (wrong_code [], register) (verify config (codes "r1") (codes "t") right 3000 tried.1)

abbrev waiting_row : Registration
waiting_row = record {
  id = codes "r1";
  jurisdiction_id = place;
  full_name = codes "Bola Ade";
  email = codes "bola@x.ng";
  phone = codes "+2348031234567";
  from_app = true;
  public_key = some (replicate 32 0);
  status_token_hash = codes "regstatus:t";
  email_code_hash = some (codes "regcode:r1:email:000007");
  sms_code_hash = some (codes "regcode:r1:sms:123456");
  codes_sent_at = some 1000;
  codes_sent_count = 1;
  code_attempts = 1;
  email_verified_at = some 2000;
  phone_verified_at = none;
  status = verifying;
  decided_by = none;
  decided_at = none;
  decided_role = none;
  reject_reason = none;
  user_id = none;
  device_id = none;
}

abbrev pending_row : Registration
pending_row = record waiting_row { phone_verified_at = some 3000; status = pending }

tried_only : filter (is_registration (codes "r1")) tried.1.registrations ≡ waiting_row ∷ []
unfolding start_registration available trim is_email split_on normalize_phone parse_public_key
    base64_to_bytes decode_from is_b64 b64_lookup text_eq keep_lawful is_lawful one_open_each
    new_registration hash_status_token hash_code six_digits decimal insert_registration verify
    verify_loaded load check_codes write_checked
tried_only = refl

proved_run :
    verify config (codes "r1") (codes "t") right 3000 tried.1 ≡ ok (described pending_row, proved.1)
unfolding start_registration available trim is_email split_on normalize_phone parse_public_key
    base64_to_bytes decode_from is_b64 b64_lookup text_eq keep_lawful is_lawful one_open_each
    new_registration hash_status_token hash_code six_digits decimal insert_registration verify
    verify_loaded load check_codes write_checked
proved_run = refl

verify-Proves_example :
    Proven config (codes "r1") email (some 2000) (some (codes "regcode:r1:email:000007")) none
    × Proven config
        (codes "r1")
        sms
        none
        (some (codes "regcode:r1:sms:123456"))
        (some (codes " 123456"))
verify-Proves_example =
    verify-Proves config (codes "r1") (codes "t") right 3000 tried.1 proved.1 waiting_row
      pending_row tried_only refl proved_run refl

abbrev approval_draw : ApproveDraw
approval_draw = record {
  user_id = codes "bola";
  device = stamp (codes "d1") 4000;
  invitation = record { stamp = stamp (codes "i1") 4000; places = [] };
}

-- The register with the request alone, as verify leaves it.
abbrev waiting : Register
waiting = record register { registrations = pending_row ∷ [] }

abbrev decided : Approval × Register
decided =
    value (record { user_id = []; device_id = none; invite_sent = true }, register)
      (approve config admin (codes "r1") inspector approval_draw waiting)

decided_run : approve config admin (codes "r1") inspector approval_draw waiting ≡ ok decided
unfolding approve approve_row is_unscoped text_eq keep_lawful is_lawful one_open_each
decided_run = refl

waiting_found : find (is_registration (codes "r1")) waiting.registrations ≡ some pending_row
unfolding text_eq
waiting_found = refl

approve-OpensSession_example :
    (decided.0.device_id ≡ some (codes "d1"))
    × (resolve_phone decided.0.user_id (codes "d1") decided.1
        ≡ some (record {
          user_id = decided.0.user_id;
          jurisdiction_id = some place;
          roles = inspector ∷ [];
        }))
approve-OpensSession_example =
    approve-OpensSession config admin approval_draw (codes "r1") waiting decided.1 decided.0
      pending_row (replicate 32 0) decided_run waiting_found refl

nationals-Guarded_example :
    ((given : CreateUserInput) (id : Text) (s' : Register)
      → create_user admin given register ≡ ok (id, s')
      → nationals s' ≡ nationals register)
    × ((id : Text) (role : Role) (s' : Register)
        → grant_role admin id role register ≡ ok s'
        → nationals s' ≡ nationals register)
    × ((id : Text) (role : Role) (draw : ApproveDraw) (a : Approval) (s' : Register)
        → approve config admin id role draw register ≡ ok (a, s')
        → nationals s' ≡ nationals register)
nationals-Guarded_example = nationals-Guarded config admin register refl

abbrev lost : Device
lost = record {
  id = codes "d9";
  jurisdiction_id = place;
  assigned_user_id = some (codes "ann");
  public_key = replicate 32 1;
  label = none;
  status = revoked;
  enrolled_at = 1;
  revoked_at = some 2;
  last_seen_at = none;
}

abbrev with_lost : Register
with_lost = record register { devices = lost ∷ [] }

lost_only : filter (is_device (codes "d9")) with_lost.devices ≡ lost ∷ []
unfolding text_eq
lost_only = refl

Served-StaysRevoked_example :
    (e : Device) × (filter
        (is_device (codes "d9"))
        (touch_phone 5 (codes "ann") (codes "d9") with_lost).devices
      ≡ e ∷ [])
    × (e.public_key ≡ replicate 32 1)
    × (e.assigned_user_id ≡ some (codes "ann"))
    × (e.status ≡ revoked)
    × ((user_id : Text)
        → resolve_phone user_id (codes "d9") (touch_phone 5 (codes "ann") (codes "d9") with_lost)
          ≡ none)
Served-StaysRevoked_example =
    Served-StaysRevoked config lost with_lost (touch_phone 5 (codes "ann") (codes "d9") with_lost)
      lost_only refl (Served.seen Served.begun 5 (codes "ann") (codes "d9"))
