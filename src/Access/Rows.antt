-- ===== src/Access/Rows.antt =====
-- Rows that are looked up, updated and added.
use mathlib.Core.List.{append-nil}
use agroassure.Prelude.{
  ◌∙◌, Bool-cases, inl, inr, differ, Bool, true, false, ◌&&◌, none, some, List, [], ◌∷◌, ◌++◌, ◌≡◌,
  refl, sym, arith, any, find, map, filter, Text, text_eq, text_eq_iff, if◌then◌else◌,
}
use agroassure.Access.{
  User, clashes, is_user, Role, role_eq, UserRole, update_where, same_role, inspector,
  desk_supervisor, authorising_officer, state_admin, national_admin, auditor,
}

pub text_eq_sym : (s t : Text) → text_eq s t ≡ true → text_eq t s ≡ true
text_eq_sym s t h = (text_eq_iff t s).1 (sym ((text_eq_iff s t).0 h))

module _ {ℓ} {A : Type ℓ} (p : A → Bool) where
  pub find-holds : (l : List A) (a : A) → find p l ≡ some a → p a ≡ true
  find-holds [] a h = absurd (cc h)
  find-holds (b ∷ l) a h = ground (arith, find-holds l a)

  pub any-weaken :
      (q : A → Bool) (l : List A)
      → ((a : A) → p a ≡ true → q a ≡ true)
      → any p l ≡ true
      → any q l ≡ true
  any-weaken q [] w h = absurd (cc h)
  any-weaken q (b ∷ l) w h = ground (arith, any-weaken q l w, w b)

  pub any-without :
      (q : A → Bool) (l : List A)
      → ((a : A) → p a ≡ true → q a ≡ true)
      → any q l ≡ false
      → any p l ≡ false
  any-without q [] w h = refl
  any-without q (b ∷ l) w h = ground (arith, any-without q l w, w b)

  pub any-find : (l : List A) (a : A) → find p l ≡ some a → any p l ≡ true
  any-find [] a h = absurd (cc h)
  any-find (b ∷ l) a h = ground (arith, any-find l a)

  pub find-none : (l : List A) → any p l ≡ false → find p l ≡ none
  find-none [] h = refl
  find-none (b ∷ l) h = ground (arith, find-none l)

  pub find-and :
      (q : A → Bool) (l : List A) (a : A)
      → find p l ≡ some a
      → q a ≡ true
      → find (λ b. p b && q b) l ≡ some a
  find-and q [] a h k = absurd (cc h)
  find-and q (b ∷ l) a h k = ground (arith, find-and q l a)

  pub find-append : (l m : List A) → any p l ≡ false → find p (l ++ m) ≡ find p m
  find-append [] m h = refl
  find-append (b ∷ l) m h = ground (arith, find-append l m)

  pub any-found :
      (q : A → Bool) (l : List A) (a : A) → find p l ≡ some a → q a ≡ true → any q l ≡ true
  any-found q [] a h k = absurd (cc h)
  any-found q (b ∷ l) a h k = ground (arith, any-found q l a)

  -- The row that was found is one of those that an update writes.
  pub any-updated :
      (r q : A → Bool) (f : A → A) (l : List A) (a : A)
      → find p l ≡ some a
      → q a ≡ true
      → r (f a) ≡ true
      → any r (update_where q f l) ≡ true
  any-updated r q f [] a h k w = absurd (cc h)
  any-updated r q f (b ∷ l) a h k w = ground (arith, any-updated r q f l a)

  -- An update of rows that changes the test of none of them.
  pub find-update :
      (f : A → A) (l : List A) (a : A)
      → ((b : A) → p (f b) ≡ p b)
      → find p l ≡ some a
      → find p (update_where p f l) ≡ some (f a)
  find-update f [] a keeps h = absurd (cc h)
  find-update f (b ∷ l) a keeps h = ground (arith, find-update f l a, keeps b)

  pub find-update_where :
      (q : A → Bool) (f : A → A) (l : List A) (a : A)
      → ((b : A) → q (f b) ≡ q b)
      → find q l ≡ some a
      → find q (update_where p f l) ≡ some (if p a then f a else a)
  find-update_where q f [] a keeps h = absurd (cc h)
  find-update_where q f (b ∷ l) a keeps h = ground (arith, find-update_where q f l a, keeps b)

  pub find-append-some : (l m : List A) (a : A) → find p l ≡ some a → find p (l ++ m) ≡ some a
  find-append-some [] m a h = absurd (cc h)
  find-append-some (b ∷ l) m a h = ground (arith, find-append-some l m a)

  pub filter-append : (l m : List A) → filter p (l ++ m) ≡ filter p l ++ filter p m
  filter-append [] m = refl
  filter-append (b ∷ l) m = ground (arith, filter-append l m)

  pub filter-none : (l : List A) → any p l ≡ false → filter p l ≡ []
  filter-none [] h = refl
  filter-none (b ∷ l) h = ground (arith, filter-none l)

  pub filter-update :
      (q : A → Bool) (f : A → A) (l : List A)
      → ((b : A) → q (f b) ≡ q b)
      → filter q (update_where p f l) ≡ update_where p f (filter q l)
  filter-update q f [] keeps = refl
  filter-update q f (b ∷ l) keeps = ground (arith, filter-update q f l keeps, keeps b)

  -- A row that is added and does not pass the test.
  pub filter-other : (l : List A) (a : A) → p a ≡ false → filter p (l ++ a ∷ []) ≡ filter p l
  filter-other l a h = filter-append l (a ∷ []) ∙ rw h (append-nil _)

  pub filter-within :
      (q : A → Bool) (l : List A)
      → ((a : A) → p a ≡ true → q a ≡ true)
      → filter p (filter q l) ≡ filter p l
  filter-within q [] w = refl
  filter-within q (b ∷ l) w = ground (arith, filter-within q l w, w b)

  pub none-among :
      (q : A → Bool) (l : List A)
      → ((a : A) → q a ≡ true → p a ≡ false)
      → any p (filter q l) ≡ false
  none-among q [] w = refl
  none-among q (b ∷ l) w = ground (arith, none-among q l w, w b)

  pub update-none : (f : A → A) (l : List A) → any p l ≡ false → update_where p f l ≡ l
  update-none f [] h = refl
  update-none f (b ∷ l) h = ground (arith, update-none f l)

  -- An update of none of the rows that pass a test.
  pub filter-untouched :
      (q : A → Bool) (f : A → A) (l : List A)
      → ((b : A) → q (f b) ≡ q b)
      → any p (filter q l) ≡ false
      → filter q (update_where p f l) ≡ filter q l
  filter-untouched q f l keeps h = filter-update q f l keeps ∙ update-none f (filter q l) h

  pub find-only : (l : List A) (b : A) → filter p l ≡ b ∷ [] → find p l ≡ some b
  find-only [] b e = absurd (cc e)
  find-only (c ∷ l) b e = ground (arith, find-only l b)

  pub find-in :
      (q : A → Bool) (l : List A) (a : A) → filter q l ≡ [] → find p l ≡ some a → q a ≡ false
  find-in q [] a e h = absurd (cc h)
  find-in q (b ∷ l) a e h = ground (arith, find-in q l a)

  -- A row that is found where one row passes a test that it passes too.
  pub found-only :
      (q : A → Bool) (l : List A) (a b : A)
      → filter q l ≡ b ∷ []
      → find p l ≡ some a
      → q a ≡ true
      → a ≡ b
  found-only q [] a b e h k = absurd (cc h)
  found-only q (c ∷ l) a b e h k = ground (arith, find-in q l a, found-only q l a b)

  pub none-in :
      (q : A → Bool) (l : List A) (b : A) → any p l ≡ false → filter q l ≡ b ∷ [] → p b ≡ false
  none-in q [] b h e = absurd (cc e)
  none-in q (c ∷ l) b h e = ground (arith, none-in q l b)

  pub only-holds : (l : List A) (b : A) → filter p l ≡ b ∷ [] → p b ≡ true
  only-holds [] b e = absurd (cc e)
  only-holds (c ∷ l) b e = ground (arith, only-holds l b)

  -- The test picks among the rows that another one passes.
  pub any-only :
      (q : A → Bool) (l : List A) (b : A)
      → ((a : A) → p a ≡ true → q a ≡ true)
      → filter q l ≡ b ∷ []
      → p b ≡ false
      → any p l ≡ false
  any-only q [] b w e h = refl
  any-only q (c ∷ l) b w e h = ground (arith, any-only q l b w, any-empty q l w, w c)
    where
      any-empty :
          (q : A → Bool) (l : List A)
          → ((a : A) → p a ≡ true → q a ≡ true)
          → filter q l ≡ []
          → any p l ≡ false
      any-empty q [] w e = refl
      any-empty q (c ∷ l) w e = ground (arith, any-empty q l w, w c)

  pub any-update :
      (q : A → Bool) (f : A → A) (l : List A)
      → ((b : A) → p b ≡ true → q (f b) ≡ q b)
      → any q (update_where p f l) ≡ any q l
  any-update q f [] keeps = refl
  any-update q f (b ∷ l) keeps = ground (arith, any-update q f l keeps, keeps b)

  -- An update that leaves no row as the test asks for.
  pub update-clears :
      (f : A → A) (l : List A) → ((b : A) → p (f b) ≡ false) → any p (update_where p f l) ≡ false
  update-clears f [] clears = refl
  update-clears f (b ∷ l) clears = ground (arith, update-clears f l clears, clears b)

pub text_eq_flip : (s t : Text) → text_eq s t ≡ false → text_eq t s ≡ false
text_eq_flip s t h = elim (Bool-cases (text_eq t s)) [
  | inr k ↦ k
  | inl k ↦ absurd (differ (text_eq s t) (text_eq_sym t s k) h)
]

-- A person who is added has an id of their own.
pub no_clash : (u : User) (l : List User) → any (clashes u) l ≡ false → any (is_user u.id) l ≡ false
no_clash u l h = any-without (is_user u.id) (clashes u) l (λ v e. rw e refl) h

-- The roles that a person holds.
pub roles_of :
    (id : Text) (role : Role) (rows : List UserRole)
    → any
        (role_eq role)
        (map (λ (r : UserRole). r.role) (filter (λ (r : UserRole). text_eq r.user_id id) rows))
      ≡ any (λ (r : UserRole). text_eq r.user_id id && role_eq role r.role) rows
roles_of id role [] = refl
roles_of id role (r ∷ rows) = ground (arith, roles_of id role rows)

pub role_eq_refl : (r : Role) → role_eq r r ≡ true
role_eq_refl inspector = refl
role_eq_refl desk_supervisor = refl
role_eq_refl authorising_officer = refl
role_eq_refl state_admin = refl
role_eq_refl national_admin = refl
role_eq_refl auditor = refl

-- A role that is there in one place is there.
pub held_row :
    (row : UserRole) (rows : List UserRole)
    → any (same_role row) rows ≡ true
    → any (λ (r : UserRole). text_eq r.user_id row.user_id && role_eq row.role r.role) rows ≡ true
held_row row [] h = absurd (cc h)
held_row row (r ∷ rows) h = ground (arith, held_row row rows, text_eq_sym row.user_id r.user_id)
