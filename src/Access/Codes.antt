-- ===== src/Access/Codes.antt =====
-- services/sync-gateway/src/invitations/invite-code.ts, the phone numbers of delivery.ts, and the
-- hashes of registration.service.ts.
use agroassure.Prelude.{
  ℕ, Bool, true, false, not, ◌&&◌, ◌||◌, Option, none, some, List, [], ◌∷◌, ◌++◌, filter, any, take,
  drop, length, ◌-◌, leb, ◌==◌, if◌then◌else◌, Text, codes, text_eq, split_on,
}

-- The settings of the server, whether each channel has a provider, and what JavaScript, the database
-- and the packages on cryptography and on tokens do: toUpperCase, toLowerCase, SQL's lower, HMAC and
-- SHA-256 in hexadecimal, and the token of a phone's session.
pub record Config : Type 0 where
  pub secret : Option Text
  pub country_code : Text
  pub ttl_hours : ℕ
  pub self_registration : Bool
  pub has_email : Bool
  pub has_sms : Bool
  pub to_upper : Text → Text
  pub to_lower : Text → Text
  pub sql_lower : Text → Text
  pub hmac : Text → Text → Text
  pub sha256 : Text → Text
  pub sign : Text → Text → Text → Text

-- \s of a regular expression, which is also what trim takes off.
abbrev pub is_space : ℕ → Bool
is_space c =
    (leb 9 c && leb c 13)
    || ((leb 8192 c && leb c 8202)
        || any (λ d. c == d) (32 ∷ 160 ∷ 5760 ∷ 8232 ∷ 8233 ∷ 8239 ∷ 8287 ∷ 12288 ∷ 65279 ∷ []))

abbrev trim_start : Text → Text
trim_start [] = []
trim_start (c ∷ t) = if is_space c then trim_start t else c ∷ t

abbrev trim_end : Text → Text
trim_end [] = []
trim_end (c ∷ t) = push_end c (trim_end t)
  where
    push_end : ℕ → Text → Text
    push_end c [] = if is_space c then [] else c ∷ []
    push_end c (d ∷ t) = c ∷ d ∷ t

unfoldable pub trim : Text → Text
trim t = trim_end (trim_start t)

abbrev pub alphabet : Text
alphabet = codes "ABCDEFGHJKMNPQRSTUVWXYZ23456789"

unfoldable pub in_alphabet : ℕ → Bool
in_alphabet c = any (λ d. d == c) alphabet

abbrev pub every : (ℕ → Bool) → Text → Bool
every p [] = true
every p (c ∷ t) = p c && every p t

abbrev pub code_length : ℕ
code_length = 8

-- The unit at a place; randomInt gives a place of the alphabet.
abbrev pub char_at : Text → ℕ → Text
char_at t n = take 1 (drop n t)

unfoldable pub raw_code : List ℕ → Text
raw_code [] = []
raw_code (n ∷ ns) = char_at alphabet n ++ raw_code ns

unfoldable pub format_invite_code : Text → Text
format_invite_code normalized = take 4 normalized ++ (codes "-" ++ drop 4 normalized)

-- `places` are the eight draws of randomInt.
unfoldable pub new_invite_code : List ℕ → Text
new_invite_code places = format_invite_code (raw_code places)

unfoldable pub carries : ℕ → Bool
carries c = not (is_space c || c == 45)

unfoldable pub normalize_invite_code : Config → Text → Option Text
normalize_invite_code cfg input =
    let cleaned = filter carries (cfg.to_upper input) in
    if length cleaned == code_length && every in_alphabet cleaned then some cleaned else none

unfoldable pub hash_invite_code : Config → Text → Text → Text
hash_invite_code cfg secret normalized = cfg.hmac secret (codes "invite:" ++ normalized)

unfoldable pub activation_link : Text → Text
activation_link normalized = codes "agroassure://activate?code=" ++ normalized

abbrev pub starts_with : Text → Text → Bool
starts_with prefix t = text_eq (take (length prefix) t) prefix

abbrev pub is_digit : ℕ → Bool
is_digit c = leb 48 c && leb c 57

abbrev pub national : Text → Text → Text
national country digits =
    if starts_with (codes "00") digits
    then drop 2 digits
    else if starts_with (codes "0") digits
    then country ++ drop 1 digits
    else if not (starts_with country digits) || leb (length digits) 10
    then country ++ digits
    else digits

unfoldable pub normalize_phone : Text → Text → Option Text
normalize_phone raw country =
    let trimmed = trim raw in
    let plus = starts_with (codes "+") trimmed in
    let found = filter is_digit trimmed in
    let digits = if plus then found else national country found in
    if length found == 0
    then none
    else if leb 10 (length digits) && leb (length digits) 15
    then some (codes "+" ++ digits)
    else none

-- ^[^\s@]+@[^\s@]+\.[^\s@]+$: a dot with something on either side.
abbrev pub has_inner_dot : Text → Bool
has_inner_dot domain = any (λ c. c == 46) (take (length domain - 2) (drop 1 domain))

abbrev pub email_parts : List Text → Bool
email_parts (local ∷ domain ∷ []) = not (length local == 0) && has_inner_dot domain
email_parts _ = false

unfoldable pub is_email : Text → Bool
is_email t = not (any is_space t) && email_parts (split_on 64 t)

pub data Channel : Type 0 where
  email sms : Channel

abbrev pub channel_name : Channel → Text
channel_name email = codes "email"
channel_name sms = codes "sms"

unfoldable pub hash_code : Config → Text → Channel → Text → Text
hash_code cfg registration_id channel code = cfg.sha256 (
    codes "regcode:"
    ++ registration_id
    ++ codes ":"
    ++ channel_name channel
    ++ codes ":"
    ++ trim code)

unfoldable pub hash_status_token : Config → Text → Text
hash_status_token cfg token = cfg.sha256 (codes "regstatus:" ++ token)

-- A setting that is empty counts as none.
abbrev pub setting : Option Text → Option Text
setting none = none
setting (some []) = none
setting (some (c ∷ t)) = some (c ∷ t)
