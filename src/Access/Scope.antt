-- ===== src/Access/Scope.antt =====
-- What an administrator of one state leaves as it is: the rows of the other states.
pub mod People
pub mod Phones
pub mod Invited
pub mod Decided
pub mod History
use mathlib.Core.Path.{subst}
use agroassure.Prelude.{
  ℕ, Bool, true, false, not, ◌&&◌, ◌||◌, Option, none, some, List, [], ◌∷◌, ◌++◌, ◌≡◌, refl, sym,
  ap, ◌∙◌, arith, any, find, filter, Text, text_eq, text_eq_iff, text_eq_refl, Bool-cases, inl, inr,
  differ, or_left, if◌then◌else◌,
}
use agroassure.Access.{
  Role, Principal, is_unscoped, jurisdiction_filter, User, UserRole, Device, Invitation,
  Registration, Register, update_where, is_user, is_device, option_eq, in_filter, insert_user,
  insert_role, insert_device, same_role, Result, ok, refused,
}
use agroassure.Access.Rules.{Post, if-Post, ok-Post, refused-Post, unless-ok}
use agroassure.Access.Rows.{
  filter-other, filter-untouched, found-only, find-holds, none-in, no_clash, text_eq_flip,
  text_eq_sym,
}
use agroassure.Access.Codes.{setting}
use agroassure.Access.People.{target_jurisdiction, scoped_state}
use agroassure.Access.Registrations.{is_registration}

-- An administrator of the state `j`.
pub record Scoped (j : Text) (p : Principal) : Type 0 where
  pub scoped : is_unscoped p ≡ false
  pub at_home : p.jurisdiction_id ≡ some j

abbrev pub is_for : Text → Invitation → Bool
is_for user_id i = text_eq i.user_id user_id

abbrev pub is_role_of : Text → UserRole → Bool
is_role_of user_id r = text_eq r.user_id user_id

abbrev pub is_away : Text → Device → Bool
is_away j d = not (text_eq j d.jurisdiction_id)

-- A person and a request, neither of them of the state `j`; no invitation of the person is of it.
pub record Abroad (j : Text) (u : User) (r : Registration) (before : Register) : Type 0 where
  pub person : option_eq (some j) u.jurisdiction_id ≡ false
  pub request : text_eq j r.jurisdiction_id ≡ false
  pub codes :
      any
        (λ (i : Invitation). option_eq (some j) i.jurisdiction_id)
        (filter (is_for u.id) before.invitations)
      ≡ false

-- The rows of the person and of the request, and the phones of other states, as they were.
pub record Untouched (j : Text) (u : User) (r : Registration) (before s : Register) : Type 0 where
  pub person : filter (is_user u.id) s.users ≡ u ∷ []
  pub roles : filter (is_role_of u.id) s.roles ≡ filter (is_role_of u.id) before.roles
  pub codes : filter (is_for u.id) s.invitations ≡ filter (is_for u.id) before.invitations
  pub phones : filter (is_away j) s.devices ≡ filter (is_away j) before.devices
  pub request : filter (is_registration r.id) s.registrations ≡ r ∷ []

option_eq_sym : (c : Option Text) (j : Text) → option_eq c (some j) ≡ option_eq (some j) c
option_eq_sym none j = refl
option_eq_sym (some k) j = elim (Bool-cases (text_eq j k)) [
  | inl h ↦ text_eq_sym j k h ∙ sym h
  | inr h ↦ text_eq_flip j k h ∙ sym h
]

module _ (j : Text) (p : Principal) (at : Scoped j p) where
  -- The filter of an administrator of a state.
  pub own_filter : jurisdiction_filter p ≡ some j
  unfolding jurisdiction_filter
  own_filter = rw (jurisdiction_filter, at.scoped) at.at_home

  pub own_state :
      (requested : Option Text) (s : Register)
      → Post (λ k. k ≡ j) (target_jurisdiction p requested s)
  unfolding target_jurisdiction
  own_state requested s =
      rw (target_jurisdiction, at.scoped, at.at_home) (own j (setting requested))
    where
      own :
          (i : Text) (given : Option Text)
          → Post (λ k. k ≡ i) (scoped_state (setting (some i)) given)
      own [] given = refused-Post _ _
      own (c ∷ i) none = ok-Post _ _ refl
      own (c ∷ i) (some k) =
          if-Post (text_eq k (c ∷ i)) _ _ (λ h. ok-Post _ _ refl) (λ h. refused-Post _ _)

  -- A row that passes the guard on the jurisdiction is of the own state.
  pub own_row :
      (c : Option Text)
      → (not (is_unscoped p) && not (option_eq c p.jurisdiction_id)) ≡ false
      → option_eq (some j) c ≡ true
  own_row c h =
      sym (option_eq_sym c j) ∙ passed (option_eq c (some j)) (rw (at.scoped, at.at_home) at h)
    where
      passed : (b : Bool) → (true && not b) ≡ false → b ≡ true
      passed b h = ground arith

  -- A test that asks for rows in the filter passes no row of elsewhere.
  pub not_elsewhere :
      (c : Option Text) (a b : Bool)
      → option_eq (some j) c ≡ false
      → (a && (b && in_filter (jurisdiction_filter p) c)) ≡ false
  not_elsewhere c a b h = rw (own_filter, h) (never a b)
    where
      never : (a b : Bool) → (a && (b && false)) ≡ false
      never a b = ground arith

module _ (j : Text) (u : User) (r : Registration) (before : Register) (out : Abroad j u r before)
    (s : Register) (kept : Untouched j u r before s) where
  -- A person of the own state who is looked up is another one.
  pub found_other :
      (test : User → Bool) (id : Text) (w : User)
      → find test s.users ≡ some w
      → is_user id w ≡ true
      → option_eq (some j) w.jurisdiction_id ≡ true
      → text_eq u.id id ≡ false
  found_other test id w found named own = elim (Bool-cases (text_eq u.id id)) [
    | inr h ↦ h
    | inl h ↦ absurd (
        differ (option_eq (some j) w.jurisdiction_id) own (
          ap (λ (x : User). option_eq (some j) x.jurisdiction_id)
            (found-only test (is_user u.id) s.users w u kept.person found (
              (text_eq_iff w.id u.id).1
                ((text_eq_iff w.id id).0 named ∙ sym ((text_eq_iff u.id id).0 h))))
          ∙ out.person))
  ]

  -- A person with a new id is another one.
  pub new_other : (id : Text) → any (is_user id) s.users ≡ false → text_eq u.id id ≡ false
  new_other id h = none-in (is_user id) (is_user u.id) s.users u h kept.person

  -- One table has changed.
  with_users :
      (l : List User)
      → filter (is_user u.id) l ≡ u ∷ []
      → Untouched j u r before (record s { users = l })
  with_users l h = record {
    person = h;
    roles = kept.roles;
    codes = kept.codes;
    phones = kept.phones;
    request = kept.request;
  }

  pub with_roles :
      (l : List UserRole)
      → filter (is_role_of u.id) l ≡ filter (is_role_of u.id) s.roles
      → Untouched j u r before (record s { roles = l })
  with_roles l h = record {
    person = kept.person;
    roles = h ∙ kept.roles;
    codes = kept.codes;
    phones = kept.phones;
    request = kept.request;
  }

  pub with_codes :
      (l : List Invitation)
      → filter (is_for u.id) l ≡ filter (is_for u.id) s.invitations
      → Untouched j u r before (record s { invitations = l })
  with_codes l h = record {
    person = kept.person;
    roles = kept.roles;
    codes = h ∙ kept.codes;
    phones = kept.phones;
    request = kept.request;
  }

  pub with_phones :
      (l : List Device)
      → filter (is_away j) l ≡ filter (is_away j) s.devices
      → Untouched j u r before (record s { devices = l })
  with_phones l h = record {
    person = kept.person;
    roles = kept.roles;
    codes = kept.codes;
    phones = h ∙ kept.phones;
    request = kept.request;
  }

  pub with_requests :
      (l : List Registration)
      → filter (is_registration r.id) l ≡ filter (is_registration r.id) s.registrations
      → Untouched j u r before (record s { registrations = l })
  with_requests l h = record {
    person = kept.person;
    roles = kept.roles;
    codes = kept.codes;
    phones = kept.phones;
    request = h ∙ kept.request;
  }

  pub with_others :
      (test : User → Bool) (f : User → User)
      → ((v : User) → is_user u.id (f v) ≡ is_user u.id v)
      → test u ≡ false
      → Untouched j u r before (record s { users = update_where test f s.users })
  with_others test f keeps h = with_users _ (
      filter-untouched test (is_user u.id) f s.users keeps (rw kept.person (rw h refl))
      ∙ kept.person)

  pub user-Untouched :
      (v : User)
      → Post (λ t. (text_eq u.id v.id ≡ false) × Untouched j u r before t) (insert_user v s)
  user-Untouched v = record {
    at_ok = λ t h.
        let (free, same) = unless-ok _ _ _ _ h in
        let other = new_other v.id (no_clash v s.users (or_left _ _ free)) in
        (
          other,
          subst (Untouched j u r before) same (
              with_users _ (
                filter-other (is_user u.id) s.users v (text_eq_flip u.id v.id other)
                ∙ kept.person)),
        );
  }

  pub role-Untouched :
      (id : Text) (role : Role) (k : Option Text)
      → text_eq u.id id ≡ false
      → Post (Untouched j u r before) (insert_role id role k s)
  role-Untouched id role none other = refused-Post _ _
  role-Untouched id role (some k) other = ok-Post _ _ (
      either (any (same_role row) s.roles)
        (with_roles _ (filter-other (is_role_of u.id) s.roles row (text_eq_flip u.id id other))))
    where
      row : UserRole
      row = record { user_id = id; role = role; jurisdiction_id = k }

      either :
          (b : Bool)
          → Untouched j u r before (record s { roles = s.roles ++ row ∷ [] })
          → Untouched j u r before (if b then s else record s { roles = s.roles ++ row ∷ [] })
      either true h = kept
      either false h = h

  pub phone-Untouched :
      (d : Device) → d.jurisdiction_id ≡ j → Post (Untouched j u r before) (insert_device d s)
  phone-Untouched d here = record {
    at_ok = λ t h.
        let (free, same) = unless-ok _ _ _ _ h in
        subst (Untouched j u r before) same
          (with_phones _ (filter-other (is_away j) s.devices d (rw (here, text_eq_refl j) refl)));
  }
