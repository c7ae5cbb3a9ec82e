-- ===== src/Access/Invitations/Issuing.antt =====
-- What issuing a code leaves: one live invitation for the person.
use agroassure.Prelude.{
  or_left, false, not, ◌&&◌, some, [], ◌∷◌, ◌++◌, ◌≡◌, refl, sym, any, find, Text,
}
use agroassure.Access.{
  inspector, Principal, User, Invitation, Register, update_where, has_role, is_none,
}
use agroassure.Access.Rules.{Post, bind-Post, read-Post, guard-Post, ok-Post, unless-ok}
use agroassure.Access.Codes.{
  Config, new_invite_code, normalize_invite_code, hash_invite_code, setting,
}
use agroassure.Access.Invitations.{
  Draw, Issued, is_live_of, cancel_at, cancel_live, has_code, new_invitation, insert_invitation,
  secret_of, issue, can_see, reinvite,
}

-- The code that was drawn, as it is kept.
pub record Kept (cfg : Config) (draw : Draw) (hash : Text) : Type 0 where
  pub secret : Text
  pub normalized : Text
  pub secret_set : setting cfg.secret ≡ some secret
  pub drawn : normalize_invite_code cfg (new_invite_code draw.places) ≡ some normalized
  pub hashed : hash ≡ hash_invite_code cfg secret normalized

pub record IssuedAs (cfg : Config) (p : Principal) (who : User) (draw : Draw) (s : Register)
    (out : Issued × Register) : Type 0 where
  pub hash : Text
  pub kept : Kept cfg draw hash
  pub named : out.0.invitation_id ≡ draw.stamp.id
  pub fresh : any (has_code hash) (cancel_live who.id draw.stamp.now s).invitations ≡ false
  pub written : out.1 ≡ record s {
    invitations =
        update_where (is_live_of who.id) (cancel_at draw.stamp.now) s.invitations
        ++ new_invitation cfg p who draw hash ∷ [];
  }

pub issue_lem :
    (cfg : Config) (p : Principal) (who : User) (draw : Draw) (s : Register)
    → Post (IssuedAs cfg p who draw s) (issue cfg p who draw s)
unfolding issue secret_of cancel_live
issue_lem cfg p who draw s =
    read-Post (normalize_invite_code cfg (new_invite_code draw.places)) _ _ (λ n drawn.
      read-Post (setting cfg.secret) _ _ (λ secret set.
        bind-Post (insert_invitation (row secret n) (cancel_live who.id draw.stamp.now s)) _
          (λ t wrote. ok-Post _ _ (
            let (free, same) = unless-ok _ _ _ _ wrote in
            record {
              hash = hash_invite_code cfg secret n;
              kept = record {
                secret = secret;
                normalized = n;
                secret_set = set;
                drawn = drawn;
                hashed = refl;
              };
              named = refl;
              fresh = or_left _ _ free;
              written = sym same;
            }))))
  where
    row : Text → Text → Invitation
    row secret n = new_invitation cfg p who draw (hash_invite_code cfg secret n)

pub reinvite_lem :
    (cfg : Config) (p : Principal) (user_id : Text) (draw : Draw) (s : Register)
    → Post
        (λ out.
          (who : User) × (find (can_see p user_id) s.users ≡ some who)
          × IssuedAs cfg p who draw s out)
        (reinvite cfg p user_id draw s)
unfolding reinvite secret_of
reinvite_lem cfg p user_id draw s = read-Post (setting cfg.secret) _ _ (λ secret set.
    read-Post (find (can_see p user_id) s.users) _ _ (λ who found.
      guard-Post (not who.is_active) _ _ (λ a.
        guard-Post (not (has_role user_id inspector s)) _ _ (λ b.
          guard-Post (is_none (setting who.email) && is_none (setting who.phone)) _ _ (λ c. record {
            at_ok = λ out h. (who, found, (issue_lem cfg p who draw s).at_ok out h);
          })))))
