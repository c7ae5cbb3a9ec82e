-- ===== src/Access/Registrations/Verifying.antt =====
-- services/sync-gateway/src/registration/registration.service.ts: the codes are typed or sent again.
use agroassure.Prelude.{
  ℕ, ◌+◌, Bool, true, false, not, ◌&&◌, Option, none, some, List, [], ◌∷◌, ◌++◌, find, ltb, leb,
  if◌then◌else◌, Text,
}
use agroassure.Access.{
  RegistrationStatus, verifying, pending, Registration, Register, too_many_attempts, codes_expired,
  too_many_sends, too_soon, constraint, Result, ok, ◌>>=◌, ◌>>◌, refuse_if, or_refuse, is_none,
  option_eq,
}
use agroassure.Access.Codes.{Config, setting, Channel, email, sms, hash_code}
use agroassure.Access.Registrations.{
  code_ttl, max_code_attempts, max_sends, resend_after, six_digits, is_registration,
  update_registrations, load,
}

abbrev pub is_status_verifying : RegistrationStatus → Bool
is_status_verifying r = elim r [ verifying ↦ true | _ ↦ false ]

-- What the person typed, and whether the codes are right: `wrong` has the channels that are not.
pub record Typed : Type 0 where
  pub email_code : Option Text
  pub sms_code : Option Text

pub record Checked : Type 0 where
  pub email_ok : Bool
  pub phone_ok : Bool
  pub wrong : List Channel

abbrev pub checks : Config → Registration → Channel → Option Text → Bool → Option Text → Bool × Bool
checks cfg r channel hash true typed = (true, false)
checks cfg r channel hash false none = (false, false)
checks cfg r channel hash false (some code) =
    let right = option_eq (some (hash_code cfg r.id channel code)) hash in (right, not right)

unfoldable pub check_codes : Config → Registration → Typed → Checked
check_codes cfg r typed =
    let e =
      checks cfg r email r.email_code_hash (not (is_none r.email_verified_at))
        (setting typed.email_code) in
    let p =
      checks cfg r sms r.sms_code_hash (not (is_none r.phone_verified_at))
        (setting typed.sms_code) in
    record {
      email_ok = e.0;
      phone_ok = p.0;
      wrong = (if e.1 then email ∷ [] else []) ++ (if p.1 then sms ∷ [] else []);
    }

-- What verify answers once it has written: the row, or the channels whose codes are wrong.
pub data Verified : Type 0 where
  described : Registration → Verified
  wrong_code : List Channel → Verified

abbrev pub verified_at : Bool → Option ℕ → ℕ → Option ℕ
verified_at false earlier now = none
verified_at true none now = some now
verified_at true (some t) now = some t

abbrev pub count_wrong : List Channel → ℕ
count_wrong [] = 0
count_wrong (c ∷ cs) = 1

-- The UPDATE of verify, on the row as it is by then.
unfoldable pub write_checked : Checked → ℕ → Registration → Registration
write_checked c now r = record r {
  email_verified_at = verified_at c.email_ok r.email_verified_at now;
  phone_verified_at = verified_at c.phone_ok r.phone_verified_at now;
  code_attempts = r.code_attempts + count_wrong c.wrong;
  status = if c.email_ok && c.phone_ok then pending else r.status;
}

abbrev pub answer_of : Registration → List Channel → Verified
answer_of r [] = described r
answer_of r (c ∷ cs) = wrong_code (c ∷ cs)

-- What verify does with the row that it loaded; the register may have changed by then.
unfoldable pub verify_loaded :
    Config → Registration → Typed → ℕ → Register → Result (Verified × Register)
verify_loaded cfg r typed now s =
    if not (is_status_verifying r.status) then ok (described r, s) else do
      refuse_if (leb max_code_attempts r.code_attempts) too_many_attempts
      let sent = (← or_refuse r.codes_sent_at codes_expired)
      refuse_if (ltb (sent + code_ttl) now) codes_expired
      let c = check_codes cfg r typed
      let t = (← update_registrations cfg (is_registration r.id) (write_checked c now) s)
      let updated = (← or_refuse (find (is_registration r.id) t.registrations) constraint)
      ok (answer_of updated c.wrong, t)

-- One call of verify that no other call overlaps: its SELECT and its UPDATE are two statements outside
-- a transaction, and verify_loaded is its end where others have written between them.
unfoldable pub verify : Config → Text → Text → Typed → ℕ → Register → Result (Verified × Register)
verify cfg id token typed now s = do
  let r = (← load cfg id token s)
  verify_loaded cfg r typed now s

abbrev pub new_hash : Config → Text → Channel → Option ℕ → ℕ → Option Text → Option Text
new_hash cfg id channel none n hash = some (hash_code cfg id channel (six_digits n))
new_hash cfg id channel (some verified) n hash = hash

-- The UPDATE of resend; `loaded` says which channels are verified.
unfoldable pub write_sent : Config → Registration → ℕ → ℕ → ℕ → Registration → Registration
write_sent cfg loaded email_draw sms_draw now r = record r {
  email_code_hash =
      new_hash cfg loaded.id email loaded.email_verified_at email_draw r.email_code_hash;
  sms_code_hash = new_hash cfg loaded.id sms loaded.phone_verified_at sms_draw r.sms_code_hash;
  codes_sent_at = some now;
  codes_sent_count = r.codes_sent_count + 1;
  code_attempts = 0;
}

abbrev pub is_too_soon : Option ℕ → ℕ → Bool
is_too_soon none now = false
is_too_soon (some sent) now = ltb now (sent + resend_after)

unfoldable pub resend_loaded :
    Config → Registration → ℕ → ℕ → ℕ → Register → Result (Registration × Register)
resend_loaded cfg r email_draw sms_draw now s =
    if not (is_status_verifying r.status) then ok (r, s) else do
      refuse_if (leb max_sends r.codes_sent_count) too_many_sends
      refuse_if (is_too_soon r.codes_sent_at now) too_soon
      let t =
          (← update_registrations cfg (is_registration r.id)
            (write_sent cfg r email_draw sms_draw now) s)
      ok (r, t)

-- Likewise for resend, with resend_loaded.
unfoldable pub resend :
    Config → Text → Text → ℕ → ℕ → ℕ → Register → Result (Registration × Register)
resend cfg id token email_draw sms_draw now s = do
  let r = (← load cfg id token s)
  resend_loaded cfg r email_draw sms_draw now s
