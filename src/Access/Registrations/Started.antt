-- ===== src/Access/Registrations/Started.antt =====
-- What a request that is made leaves.
use agroassure.Prelude.{
  or_left, if◌then◌else◌, ◌||◌, ℕ, Bool, true, false, not, Option, List, [], ◌∷◌, ◌++◌, ◌≡◌, refl,
  sym, ap, ◌∙◌, any, ltb, length, Text, text_eq,
}
use agroassure.Access.{Registration, Register, update_where, Result, ok, refused, constraint}
use agroassure.Access.Rules.{Post, bind-Post, read-Post, guard-Post, ok-Post, when-ok}
use agroassure.Access.Codes.{Config, trim, is_email, normalize_phone}
use agroassure.Access.Invitations.{has_email}
use agroassure.Access.Registrations.{available, keep_lawful, is_open_for}
use agroassure.Access.Registrations.Asking.{
  StartInput, StartDraw, key_of, key_taken, withdraw, new_registration, same_row,
  insert_registration, start_registration,
}

-- What a statement on the table of requests leaves.
pub keep_lawful-rows :
    (cfg : Config) (rows : List Registration) (s t : Register)
    → keep_lawful cfg rows s ≡ ok t
    → record s { registrations = rows } ≡ t
unfolding keep_lawful
keep_lawful-rows cfg rows s t h = (when-ok _ _ _ _ h).1

insert_registration-rows :
    (cfg : Config) (r : Registration) (s t : Register)
    → insert_registration cfg r s ≡ ok t
    → (any (same_row r) s.registrations ≡ false)
      × (record s { registrations = s.registrations ++ r ∷ [] } ≡ t)
unfolding insert_registration
insert_registration-rows cfg r s t h =
    let (free, kept) =
      past
        (any (same_row r) s.registrations || not (any (text_eq r.jurisdiction_id) s.jurisdictions))
        _ h in
    (or_left _ _ free, keep_lawful-rows cfg (s.registrations ++ r ∷ []) s t kept)
  where
    past :
        (b : Bool) (m : Result Register)
        → (if b then refused constraint else m) ≡ ok t
        → (b ≡ false) × (m ≡ ok t)
    past true m h = absurd (cc h)
    past false m h = (refl, h)

-- The open requests of the address are withdrawn, and a row is added.
pub record StartedAs (cfg : Config) (input : StartInput) (draw : StartDraw) (s : Register)
    (out : (Text × Text) × Register) : Type 0 where
  pub phone : Text
  pub key : Option (List ℕ)
  pub address : Text
  pub fresh :
      any
        (same_row (new_registration cfg input draw (trim input.full_name) address phone key))
        (update_where (is_open_for cfg address) withdraw s.registrations)
      ≡ false
  pub named : out.0 ≡ (draw.stamp.id, draw.token)
  pub written : out.1 ≡ record s {
    registrations =
        update_where (is_open_for cfg address) withdraw s.registrations
        ++ new_registration cfg input draw (trim input.full_name) address phone key ∷ [];
  }

pub start_lem :
    (cfg : Config) (input : StartInput) (draw : StartDraw) (s : Register)
    → Post (StartedAs cfg input draw s) (start_registration cfg input draw s)
unfolding start_registration
start_lem cfg input draw s = guard-Post (not (available cfg)) _ _ (λ a.
    guard-Post (ltb (length (trim input.full_name)) 3) _ _ (λ b.
      guard-Post (not (is_email address)) _ _ (λ c.
        read-Post (normalize_phone input.phone cfg.country_code) _ _ (λ phone d.
          bind-Post (key_of input.from_app input.public_key_base64) _ (λ key e.
            guard-Post (not (any (text_eq input.jurisdiction_id) s.jurisdictions)) _ _ (λ f.
              guard-Post (any (has_email cfg address) s.users) _ _ (λ g.
                guard-Post (key_taken key s) _ _ (λ h.
                  bind-Post (keep_lawful cfg rows s) _ (λ t withdrawn.
                    bind-Post (insert_registration cfg (row phone key) t) _ (λ u written.
                      ok-Post _ _ (
                        put t u phone key (keep_lawful-rows cfg rows s t withdrawn)
                          (insert_registration-rows cfg (row phone key) t u written))))))))))))
  where
    address : Text
    address = cfg.to_lower (trim input.email)

    rows : List Registration
    rows = update_where (is_open_for cfg address) withdraw s.registrations

    row : Text → Option (List ℕ) → Registration
    row phone key = new_registration cfg input draw (trim input.full_name) address phone key

    put :
        (t u : Register) (phone : Text) (key : Option (List ℕ))
        → record s { registrations = rows } ≡ t
        → (any (same_row (row phone key)) t.registrations ≡ false)
          × (record t { registrations = t.registrations ++ row phone key ∷ [] } ≡ u)
        → StartedAs cfg input draw s ((draw.stamp.id, draw.token), u)
    put t u phone key a (free, b) = record {
      phone = phone;
      key = key;
      address = address;
      fresh = ap (λ (x : Register). any (same_row (row phone key)) x.registrations) a ∙ free;
      named = refl;
      written =
          sym b
          ∙ ap
              (λ (x : Register). record x { registrations = x.registrations ++ row phone key ∷ [] })
              (sym a);
    }
