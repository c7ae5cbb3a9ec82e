-- ===== src/Access/Invitations.antt =====
-- services/sync-gateway/src/invitations/invitations.service.ts: issuing a code.
pub mod Issuing
pub mod OneLive
pub mod Presenting
pub mod Replaced
pub mod Activated
pub mod SpentOnce
pub mod Spending
use agroassure.Prelude.{
  ℕ, ◌+◌, ◌*◌, Bool, true, false, not, ◌&&◌, ◌||◌, Option, none, some, List, [], ◌∷◌, ◌++◌, find,
  any, ltb, if◌then◌else◌, Text, text_eq,
}
use agroassure.Access.{
  inspector, Principal, jurisdiction_filter, User, Device, active, Invitation, Register, not_set_up,
  invalid_phone, no_contact, invalid_email, email_taken, not_found, suspended, not_inspector,
  invalid_code, already_used, expired, account_inactive, key_in_use, device_signed_out, constraint,
  Result, ok, refused, ◌>>=◌, ◌>>◌, refuse_if, or_refuse, is_none, option_eq, in_filter,
  update_where, is_user, has_role, has_key, is_device, is_revoked, is_active_status, is_live,
  new_user, insert_user, insert_role, insert_device,
}
use agroassure.Access.Codes.{
  Config, setting, trim, new_invite_code, normalize_invite_code, hash_invite_code, activation_link,
  normalize_phone, is_email,
}
use agroassure.Access.People.{target_jurisdiction}
use agroassure.Access.Phones.{Stamp, parse_public_key, new_device}

-- What the administrator types in, with the id that the database gives to the new user.
pub record InviteInput : Type 0 where
  pub user_id : Text
  pub full_name : Text
  pub email : Option Text
  pub phone : Option Text
  pub jurisdiction_id : Option Text

-- What a new invitation is given: its id, the time, and the draws of its code.
pub record Draw : Type 0 where
  pub stamp : Stamp
  pub places : List ℕ

pub record Issued : Type 0 where
  pub invitation_id : Text
  pub user_id : Text
  pub code : Text
  pub link : Text
  pub expires_at : ℕ

pub record Activation : Type 0 where
  pub token : Text
  pub user_id : Text
  pub full_name : Text
  pub device_id : Text

unfoldable pub secret_of : Config → Result Text
secret_of cfg = or_refuse (setting cfg.secret) not_set_up

abbrev pub is_live_of : Text → Invitation → Bool
is_live_of user_id i = text_eq i.user_id user_id && is_live i

abbrev pub cancel_at : ℕ → Invitation → Invitation
cancel_at now i = record i { cancelled_at = some now }

unfoldable pub cancel_live : Text → ℕ → Register → Register
cancel_live user_id now s = record s {
  invitations = update_where (is_live_of user_id) (cancel_at now) s.invitations;
}

-- INSERT INTO invitation: the hash is unique, one is live for a user, and it ends after it begins.
abbrev pub has_code : Text → Invitation → Bool
has_code hash i = text_eq i.code_hash hash

abbrev pub insert_invitation : Invitation → Register → Result Register
insert_invitation i s =
    if any (has_code i.code_hash) s.invitations
      || (any (is_live_of i.user_id) s.invitations || not (ltb i.created_at i.expires_at))
    then refused constraint
    else ok (record s { invitations = s.invitations ++ i ∷ [] })

abbrev pub expiry : Config → ℕ → ℕ
expiry cfg now = now + cfg.ttl_hours * 60 * 60 * 1000

abbrev pub new_invitation : Config → Principal → User → Draw → Text → Invitation
new_invitation cfg p who draw hash = record {
  id = draw.stamp.id;
  jurisdiction_id = who.jurisdiction_id;
  user_id = who.id;
  code_hash = hash;
  created_by = p.user_id;
  created_at = draw.stamp.now;
  expires_at = expiry cfg draw.stamp.now;
  used = none;
  cancelled_at = none;
  email_to = who.email;
  sms_to = who.phone;
}

-- The code is one that normalizeInviteCode takes, as newInviteCode makes it.
unfoldable pub issue : Config → Principal → User → Draw → Register → Result (Issued × Register)
issue cfg p who draw s = do
  let now : ℕ = draw.stamp.now
  let code = new_invite_code draw.places
  let normalized = (← or_refuse (normalize_invite_code cfg code) invalid_code)
  let secret = (← secret_of cfg)
  let t =
      (← insert_invitation (new_invitation cfg p who draw (hash_invite_code cfg secret normalized))
        (cancel_live who.id now s))
  ok (
    record {
      invitation_id = draw.stamp.id;
      user_id = who.id;
      code = code;
      link = activation_link normalized;
      expires_at = expiry cfg now;
    },
    t,
  )

abbrev pub non_empty : Text → Option Text
non_empty [] = none
non_empty (c ∷ t) = some (c ∷ t)

abbrev pub email_of : Config → Option Text → Option Text
email_of cfg none = none
email_of cfg (some t) = non_empty (cfg.to_lower (trim t))

-- An empty phone counts as none; one that is no number refuses the call.
abbrev pub phone_of : Config → Option Text → Result (Option Text)
phone_of cfg input = elim (setting input) [
  | none ↦ ok none
  | some raw ↦ or_refuse (normalize_phone raw cfg.country_code) invalid_phone >>= λ n. ok (some n)
]

abbrev pub is_bad_email : Option Text → Bool
is_bad_email none = false
is_bad_email (some t) = not (is_email t)

abbrev pub has_email : Config → Text → User → Bool
has_email cfg address u = elim u.email [ none ↦ false | some t ↦ text_eq (cfg.sql_lower t) address ]

abbrev pub is_taken : Config → Option Text → List User → Bool
is_taken cfg none users = false
is_taken cfg (some address) users = any (has_email cfg address) users

-- invite, up to what it sends: deliver only fills the columns on delivery.
unfoldable pub invite :
    Config → Principal → InviteInput → Draw → Register → Result (Issued × Register)
invite cfg p input draw s = do
  let secret = (← secret_of cfg)
  let email = email_of cfg input.email
  let phone = (← phone_of cfg input.phone)
  refuse_if (is_none email && is_none phone) no_contact
  refuse_if (is_bad_email email) invalid_email
  let j = (← target_jurisdiction p input.jurisdiction_id s)
  refuse_if (is_taken cfg email s.users) email_taken
  let who = new_user input.user_id j (trim input.full_name) email phone none
  let t = (← insert_user who s)
  let u = (← insert_role input.user_id inspector (some j) t)
  issue cfg p who draw u

abbrev pub can_see : Principal → Text → User → Bool
can_see p user_id u = is_user user_id u && in_filter (jurisdiction_filter p) u.jurisdiction_id

unfoldable pub reinvite : Config → Principal → Text → Draw → Register → Result (Issued × Register)
reinvite cfg p user_id draw s = do
  let secret = (← secret_of cfg)
  let user = (← or_refuse (find (can_see p user_id) s.users) not_found)
  refuse_if (not user.is_active) suspended
  refuse_if (not (has_role user_id inspector s)) not_inspector
  refuse_if (is_none (setting user.email) && is_none (setting user.phone)) no_contact
  issue cfg p user draw s

abbrev pub may_cancel : Principal → Text → Invitation → Bool
may_cancel p id i =
    text_eq i.id id && (is_live i && in_filter (jurisdiction_filter p) i.jurisdiction_id)

unfoldable pub cancel : Principal → Text → ℕ → Register → Result Register
cancel p id now s = do
  refuse_if (not (any (may_cancel p id) s.invitations)) not_found
  ok (record s { invitations = update_where (may_cancel p id) (cancel_at now) s.invitations })
