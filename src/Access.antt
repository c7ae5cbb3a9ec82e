-- ===== src/Access.antt =====
-- Who may do what at the gateway: services/sync-gateway/src/common/rbac.ts, and the tables of
-- people, phones, invitations and requests to join (db/migrations).
pub mod Codes
pub mod Rules
pub mod Rows
pub mod Promotion
pub mod Nationals
pub mod Sessions
pub mod CodeRoundTrip
pub mod Custody
pub mod Scope
pub mod Directory
pub mod People
pub mod Phones
pub mod Invitations
pub mod Registrations
use agroassure.Prelude.{
  ℕ, ◌+◌, Bool, true, false, not, ◌&&◌, ◌||◌, Option, none, some, List, [], ◌∷◌, ◌++◌, filter, find,
  any, map, ltb, if◌then◌else◌, Text, text_eq,
}

pub data Role : Type 0 where
  inspector desk_supervisor authorising_officer state_admin national_admin auditor : Role

abbrev pub role_eq : Role → Role → Bool
role_eq inspector inspector = true
role_eq desk_supervisor desk_supervisor = true
role_eq authorising_officer authorising_officer = true
role_eq state_admin state_admin = true
role_eq national_admin national_admin = true
role_eq auditor auditor = true
role_eq _ _ = false

pub record Principal : Type 0 where
  pub user_id : Text
  pub jurisdiction_id : Option Text
  pub roles : List Role

abbrev pub holds : Role → Principal → Bool
holds role p = any (role_eq role) p.roles

unfoldable pub is_unscoped : Principal → Bool
is_unscoped p = holds national_admin p || holds auditor p

unfoldable pub jurisdiction_filter : Principal → Option Text
jurisdiction_filter p = if is_unscoped p then none else p.jurisdiction_id

-- app_user
pub record User : Type 0 where
  pub id : Text
  pub jurisdiction_id : Option Text
  pub full_name : Text
  pub email : Option Text
  pub phone : Option Text
  pub oidc_subject : Option Text
  pub is_active : Bool

pub record UserRole : Type 0 where
  pub user_id : Text
  pub role : Role
  pub jurisdiction_id : Text

pub data DeviceStatus : Type 0 where
  waiting active revoked : DeviceStatus

-- device; a key is its bytes.
pub record Device : Type 0 where
  pub id : Text
  pub jurisdiction_id : Text
  pub assigned_user_id : Option Text
  pub public_key : List ℕ
  pub label : Option Text
  pub status : DeviceStatus
  pub enrolled_at : ℕ
  pub revoked_at : Option ℕ
  pub last_seen_at : Option ℕ

-- invitation; `used` has the two columns that move together. The columns on delivery are left out.
pub record Invitation : Type 0 where
  pub id : Text
  pub jurisdiction_id : Option Text
  pub user_id : Text
  pub code_hash : Text
  pub created_by : Text
  pub created_at : ℕ
  pub expires_at : ℕ
  pub used : Option (ℕ × Text)
  pub cancelled_at : Option ℕ
  pub email_to : Option Text
  pub sms_to : Option Text

pub data RegistrationStatus : Type 0 where
  verifying pending approved rejected withdrawn : RegistrationStatus

-- registration
pub record Registration : Type 0 where
  pub id : Text
  pub jurisdiction_id : Text
  pub full_name : Text
  pub email : Text
  pub phone : Text
  pub from_app : Bool
  pub public_key : Option (List ℕ)
  pub status_token_hash : Text
  pub email_code_hash : Option Text
  pub sms_code_hash : Option Text
  pub codes_sent_at : Option ℕ
  pub codes_sent_count : ℕ
  pub code_attempts : ℕ
  pub email_verified_at : Option ℕ
  pub phone_verified_at : Option ℕ
  pub status : RegistrationStatus
  pub decided_by : Option Text
  pub decided_at : Option ℕ
  pub decided_role : Option Role
  pub reject_reason : Option Text
  pub user_id : Option Text
  pub device_id : Option Text

pub record Register : Type 0 where
  pub jurisdictions : List Text
  pub users : List User
  pub roles : List UserRole
  pub devices : List Device
  pub invitations : List Invitation
  pub registrations : List Registration

-- Why a call is refused: the exceptions that the services throw, by what they say, and `constraint`
-- for what the database throws.
pub data Refusal : Type 0 where
  not_set_up invalid_phone no_contact invalid_email email_taken : Refusal
  not_found suspended not_inspector other_jurisdiction no_jurisdiction no_state : Refusal
  invalid_code already_used expired account_inactive key_in_use device_signed_out : Refusal
  invalid_key invalid_name missing_key invalid_state account_exists closed_to_all : Refusal
  too_many_attempts codes_expired too_many_sends too_soon : Refusal
  may_not_grant not_verified already_decided constraint : Refusal

-- A transaction that throws is rolled back: a refusal leaves the register as it was.
pub data Result {ℓ} (A : Type ℓ) : Type ℓ where
  ok : A → Result A
  refused : Refusal → Result A

infixl 5 ◌>>=◌ ◌>>◌
abbrev pub ◌>>=◌ {ℓ κ} : {A : Type ℓ} {B : Type κ} → Result A → (A → Result B) → Result B
ok a >>= f = f a
refused e >>= f = refused e

abbrev pub ◌>>◌ {ℓ} : {B : Type ℓ} → Result (Unit {0}) → Result B → Result B
m >> k = m >>= λ _. k

abbrev pub refuse_if : Bool → Refusal → Result (Unit {0})
refuse_if true e = refused e
refuse_if false e = ok tt

abbrev pub or_refuse {ℓ} : {A : Type ℓ} → Option A → Refusal → Result A
or_refuse none e = refused e
or_refuse (some a) e = ok a

abbrev pub is_none {ℓ} : {A : Type ℓ} → Option A → Bool
is_none none = true
is_none (some a) = false

abbrev pub option_eq : Option Text → Option Text → Bool
option_eq none none = true
option_eq (some s) (some t) = text_eq s t
option_eq _ _ = false

-- $n::uuid IS NULL OR column = $n
abbrev pub in_filter : Option Text → Option Text → Bool
in_filter none column = true
in_filter (some j) column = option_eq (some j) column

-- UPDATE … WHERE p
abbrev pub update_where {ℓ} : {A : Type ℓ} → (A → Bool) → (A → A) → List A → List A
update_where p f [] = []
update_where p f (a ∷ l) = (if p a then f a else a) ∷ update_where p f l

abbrev pub is_user : Text → User → Bool
is_user id u = text_eq u.id id

abbrev pub has_role : Text → Role → Register → Bool
has_role user_id role s =
    any (λ (r : UserRole). text_eq r.user_id user_id && role_eq role r.role) s.roles

abbrev pub has_key : List ℕ → Device → Bool
has_key key d = text_eq d.public_key key

abbrev pub is_device : Text → Device → Bool
is_device id d = text_eq d.id id

abbrev pub is_revoked : DeviceStatus → Bool
is_revoked s = elim s [ revoked ↦ true | _ ↦ false ]

abbrev pub is_active_status : DeviceStatus → Bool
is_active_status s = elim s [ active ↦ true | _ ↦ false ]

abbrev pub is_waiting : DeviceStatus → Bool
is_waiting s = elim s [ waiting ↦ true | _ ↦ false ]

abbrev pub is_live : Invitation → Bool
is_live i = is_none i.used && is_none i.cancelled_at

abbrev pub is_open : RegistrationStatus → Bool
is_open s = elim s [ verifying ↦ true | pending ↦ true | _ ↦ false ]

-- A column that is UNIQUE; nulls are not equal.
abbrev pub same_value : Option Text → Option Text → Bool
same_value (some s) (some t) = text_eq s t
same_value _ _ = false

-- REFERENCES jurisdiction
abbrev pub is_place : Option Text → Register → Bool
is_place none s = true
is_place (some j) s = any (text_eq j) s.jurisdictions

-- INSERT INTO app_user: the id, the email and the subject are unique, and the place exists.
abbrev pub clashes : User → User → Bool
clashes u v =
    text_eq v.id u.id || (same_value v.email u.email || same_value v.oidc_subject u.oidc_subject)

abbrev pub insert_user : User → Register → Result Register
insert_user u s =
    if any (clashes u) s.users || not (is_place u.jurisdiction_id s)
    then refused constraint
    else ok (record s { users = s.users ++ u ∷ [] })

-- The columns that a new user is given; it is active.
abbrev pub new_user : Text → Text → Text → Option Text → Option Text → Option Text → User
new_user id j full_name email phone oidc_subject = record {
  id = id;
  jurisdiction_id = some j;
  full_name = full_name;
  email = email;
  phone = phone;
  oidc_subject = oidc_subject;
  is_active = true;
}

abbrev pub same_role : UserRole → UserRole → Bool
same_role a b =
    text_eq a.user_id b.user_id
    && (role_eq a.role b.role && text_eq a.jurisdiction_id b.jurisdiction_id)

-- INSERT INTO user_role … ON CONFLICT DO NOTHING; the key has the jurisdiction, which is so not null.
abbrev pub insert_role : Text → Role → Option Text → Register → Result Register
insert_role user_id role none s = refused constraint
insert_role user_id role (some j) s =
    let row : UserRole = record { user_id = user_id; role = role; jurisdiction_id = j } in
    ok (if any (same_role row) s.roles then s else record s { roles = s.roles ++ row ∷ [] })

-- INSERT INTO device: the id is unique and the place exists; the key is not unique.
abbrev pub insert_device : Device → Register → Result Register
insert_device d s =
    if any (is_device d.id) s.devices || not (is_place (some d.jurisdiction_id) s)
    then refused constraint
    else ok (record s { devices = s.devices ++ d ∷ [] })
