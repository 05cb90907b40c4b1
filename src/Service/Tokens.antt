-- ===== src/Service/Tokens.antt =====
-- TokenInfo of lib/services/sf.js. `none` is `undefined`.
use snowflake_connector_node.Prelude.{
  ℕ, zero, suc, ◌+◌, ◌*◌, String, Bool, true, false, ◌||◌, Option, none, some, str_eq,
  if◌then◌else◌,
}

-- An expiration time; arithmetic on `undefined` gives NaN.
pub data Expiry : Type 0 where
  nan : Expiry
  at : ℕ → Expiry

pub record TokenInfo : Type 0 where
  pub master_token : Option String
  pub session_token : Option String
  pub master_token_expiration_time : Option Expiry
  pub session_token_expiration_time : Option Expiry

-- The fields of a login or renewal response that `update` reads.
pub record TokenData : Type 0 where
  pub master_token : Option String
  pub token : Option String
  pub session_token : Option String
  pub master_validity_in_seconds : Option ℕ
  pub validity_in_seconds_mt : Option ℕ
  pub validity_in_seconds : Option ℕ
  pub validity_in_seconds_st : Option ℕ

unfoldable pub no_tokens : TokenInfo
no_tokens = record {
  master_token = none;
  session_token = none;
  master_token_expiration_time = none;
  session_token_expiration_time = none;
}

-- `a || b` on texts: the empty text gives way.
unfoldable pub or_text : Option String → Option String → Option String
or_text none b = b
or_text (some a) b = if str_eq a "" then b else some a

-- `a || b` on numbers: 0 gives way.
unfoldable pub or_number : Option ℕ → Option ℕ → Option ℕ
or_number none b = b
or_number (some zero) b = b
or_number (some (suc n)) b = some (suc n)

unfoldable pub expiry : ℕ → Option ℕ → Expiry
expiry now none = nan
expiry now (some seconds) = at (now + 1000 * seconds)

abbrev pub is_missing {ℓ} : {A : Type ℓ} → Option A → Bool
is_missing none = true
is_missing (some a) = false

unfoldable pub is_empty : TokenInfo → Bool
is_empty t =
    is_missing t.master_token
    || is_missing t.master_token_expiration_time
    || is_missing t.session_token
    || is_missing t.session_token_expiration_time

unfoldable pub clear_tokens : TokenInfo → TokenInfo
unfolding no_tokens
clear_tokens t = no_tokens

-- `now` is the current time in milliseconds.
unfoldable pub update : ℕ → TokenData → TokenInfo → TokenInfo
unfolding or_text or_number expiry
update now d t = record {
  master_token = d.master_token;
  session_token = or_text d.token d.session_token;
  master_token_expiration_time =
      some (expiry now (or_number d.master_validity_in_seconds d.validity_in_seconds_mt));
  session_token_expiration_time =
      some (expiry now (or_number d.validity_in_seconds d.validity_in_seconds_st));
}
