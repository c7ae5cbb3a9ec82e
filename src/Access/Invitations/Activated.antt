-- ===== src/Access/Invitations/Activated.antt =====
-- What spending a code leaves.
use agroassure.Prelude.{
  or_true, ℕ, Bool, true, false, not, ◌&&◌, Option, none, some, List, [], ◌∷◌, ◌≡◌, refl, sym, ap,
  ◌∙◌, arith, any, any-append, find, ltb, Text, text_eq_refl,
}
use agroassure.Access.{
  User, Device, Invitation, Register, is_none, is_user, is_device, has_key, is_revoked, option_eq,
  insert_device, ok,
}
use agroassure.Access.Rules.{
  Post, bind-Post, read-Post, guard-Post, ok-Post, unless-ok, option-Post, refuse_if-ok, guard-ok,
}
use agroassure.Access.Rows.{any-updated, find-holds}
use agroassure.Access.Directory.{is_phone_of}
use agroassure.Access.Codes.{Config, normalize_invite_code, hash_invite_code, setting}
use agroassure.Access.Phones.{Stamp, parse_public_key}
use agroassure.Access.Invitations.{Activation, has_code, secret_of}
use agroassure.Access.Invitations.Presenting.{Presented}
use agroassure.Access.Invitations.Spending.{
  seen_new, reuse_device, bring_phone, spend, or_else, check_invite, activate, activate_with,
}

-- The phone that the person has brought.
abbrev pub is_brought : Text → List ℕ → Text → Device → Bool
is_brought user_id key id d = is_phone_of user_id id d && has_key key d

pub record Brought (user_id : Text) (key : List ℕ) (s : Register) (out : Text × Register)
    : Type 0 where
  pub there : any (is_brought user_id key out.0) out.1.devices ≡ true
  pub rest : out.1 ≡ record s { devices = out.1.devices }

pub bring_phone_lem :
    (at : Stamp) (user_id j : Text) (key : List ℕ) (label : Option Text) (s : Register)
    → Post (Brought user_id key s) (bring_phone at user_id j key label s)
unfolding bring_phone
bring_phone_lem at user_id j key label s =
    option-Post (find (has_key key) s.devices) _ _
      (λ new. bind-Post (insert_device row s) _ (λ t wrote. ok-Post _ _ (
        let (free, same) = unless-ok _ _ _ _ wrote in
        record {
          there =
              ap (λ (u : Register). any (is_brought user_id key at.id) u.devices) (sym same)
              ∙ any-append (is_brought user_id key at.id) s.devices (row ∷ [])
              ∙ rw (text_eq_refl at.id, text_eq_refl user_id, text_eq_refl key) (or_true _);
          rest =
              sym same
              ∙ ap (λ (ds : List Device). record s { devices = ds })
                  (ap (λ (u : Register). u.devices) same);
        })))
      (λ d old. guard-Post (not (option_eq d.assigned_user_id (some user_id))) _ _ (λ own.
        guard-Post (is_revoked d.status) _ _ (λ standing. ok-Post _ _ (record {
          there =
              any-updated (has_key key) (is_brought user_id key d.id) (is_device d.id)
                (reuse_device at.now label) s.devices d old (text_eq_refl d.id)
                (mine d (find-holds (has_key key) s.devices d old) own);
          rest = refl;
        }))))
  where
    row : Device
    row = seen_new at j user_id key label

    mine :
        (d : Device)
        → has_key key d ≡ true
        → not (option_eq d.assigned_user_id (some user_id)) ≡ false
        → is_brought user_id key d.id (reuse_device at.now label d) ≡ true
    mine d k own =
        rw (text_eq_refl d.id, k) (both (option_eq d.assigned_user_id (some user_id)) own)
      where
        both : (b : Bool) → not b ≡ false → ((b && true) && true) ≡ true
        both b h = ground arith

pub record Activated (cfg : Config) (code base64 : Text) (label : Option Text) (at : Stamp)
    (s : Register) (out : Activation × Register) : Type 0 where
  pub hash : Text
  pub given : Presented cfg code base64 hash
  pub invitation : Invitation
  pub user : User
  pub on_file : find (has_code hash) s.invitations ≡ some invitation
  pub known : find (is_user invitation.user_id) s.users ≡ some user
  pub cancelled : invitation.cancelled_at ≡ none
  pub unused : invitation.used ≡ none
  pub in_time : ltb invitation.expires_at at.now ≡ false
  pub standing : user.is_active ≡ true
  pub theirs : out.0.user_id ≡ invitation.user_id
  pub place : Text
  pub before : Register
  pub brought :
      bring_phone at invitation.user_id place given.key label s ≡ ok (out.0.device_id, before)
  pub devices : out.1.devices ≡ before.devices
  pub there : any (is_brought invitation.user_id given.key out.0.device_id) out.1.devices ≡ true
  pub rest :
      out.1 ≡ spend invitation.id at.now out.0.device_id (record s { devices = out.1.devices })

none_of {ℓ} : {A : Type ℓ} (o : Option A) → not (is_none o) ≡ false → o ≡ none
none_of none h = refl
none_of (some a) h = absurd (cc h)

true_of : (b : Bool) → not b ≡ false → b ≡ true
true_of b h = ground arith

check_invite-ok :
    (now : ℕ) (i : Invitation) (u : User)
    → check_invite now i u ≡ ok tt
    → (i.cancelled_at ≡ none)
      × (i.used ≡ none)
      × (ltb i.expires_at now ≡ false)
      × (u.is_active ≡ true)
check_invite-ok now i u h =
    let (a, h1) = guard-ok (not (is_none i.cancelled_at)) _ _ h in
    let (b, h2) = guard-ok (not (is_none i.used)) _ _ h1 in
    let (c, h3) = guard-ok (ltb i.expires_at now) _ _ h2 in
    (none_of _ a, none_of _ b, c, true_of _ (refuse_if-ok _ _ h3))

pub activate_lem :
    (cfg : Config) (code base64 : Text) (label : Option Text) (at : Stamp) (s : Register)
    → Post (Activated cfg code base64 label at s) (activate cfg code base64 label at s)
unfolding activate activate_with secret_of
activate_lem cfg code base64 label at s = read-Post (setting cfg.secret) _ _ (λ secret set.
    read-Post (normalize_invite_code cfg code) _ _ (λ n formed.
      bind-Post (parse_public_key base64) _ (λ key parsed.
        read-Post (find (has_code (hash_invite_code cfg secret n)) s.invitations) _ _ (λ i found.
          read-Post (find (is_user i.user_id) s.users) _ _ (λ u known.
            bind-Post (check_invite at.now i u) _ (λ checked passed.
              read-Post (or_else i.jurisdiction_id u.jurisdiction_id) _ _ (λ j placed.
                bind-Post (bring_phone at i.user_id j key label s) _ (λ phone brought.
                  let (a, b, c, d) = check_invite-ok at.now i u passed in
                  let e = (bring_phone_lem at i.user_id j key label s).at_ok phone brought in
                  ok-Post _ _ (record {
                    hash = hash_invite_code cfg secret n;
                    given = record {
                      secret = secret;
                      normalized = n;
                      key = key;
                      secret_set = set;
                      well_formed = formed;
                      is_key = parsed;
                      hashed = refl;
                    };
                    invitation = i;
                    user = u;
                    on_file = found;
                    known = known;
                    cancelled = a;
                    unused = b;
                    in_time = c;
                    standing = d;
                    theirs = refl;
                    place = j;
                    before = phone.1;
                    brought = brought;
                    devices = refl;
                    there = e.there;
                    rest = ap (spend i.id at.now phone.0) e.rest;
                  })))))))))
