-- ===== src/Ledger/Account.antt =====
-- libs/ledger-package/src/entities/account.entity.ts. The entries and the children, which only
-- `findAccountWithEntries` fills, and the time of creation are left out of the record.
use Prim.Native.Char.{code}
use backend_showcase.Prelude.{
  ℕ, String, Bool, true, not, ◌&&◌, ◌||◌, Option, ltb, leb, ◌==◌, if◌then◌else◌, ◌+s◌, utf16_length,
  starts_with, at_some_position, str_eq,
}
use backend_showcase.Ledger.Result.{
  account_name_size_exceeded, cannot_be_empty, incorrect_name, name_and_fullname_is_not_equal,
  account_name_is_not_correct, Result, ok, err,
}

pub record Account : Type 0 where
  pub id : String
  pub name : String
  pub full_name : String
  pub parent_id : Option String
  pub is_credit_plus : Bool

-- `[a-zA-Z0-9_:-]`
abbrev name_char : ℕ → Bool
name_char c =
    leb b'a' c && leb c b'z'
    || leb b'A' c && leb c b'Z'
    || leb b'0' c && leb c b'9'
    || c == b'_'
    || c == b':'
    || c == b'-'

-- Any number of name characters from the start of the text: the star takes as many as there are,
-- and what is left is not looked at.
match_name_chars : String → Bool
match_name_chars String.[] = true
match_name_chars (String.◌∷◌ c s) = if name_char (code c) then match_name_chars s else true

-- `/[a-zA-Z0-9_:-]*/.test(s)`: a match at some position.
unfoldable pub name_pattern_test : String → Bool
unfolding match_name_chars at_some_position
name_pattern_test s = at_some_position match_name_chars s

-- `s.includes('::')`
unfoldable pub includes_empty_segment : String → Bool
unfolding at_some_position starts_with
includes_empty_segment s = at_some_position (λ t. starts_with t "::") s

-- `s.endsWith(suffix)`
unfoldable pub ends_with : String → String → Bool
unfolding at_some_position
ends_with s suffix = at_some_position (λ t. str_eq t suffix) s

-- The checks of `validate`, in order. The two `typeof` checks cannot fail here.
unfoldable pub validate : Account → Result (Unit {0})
unfolding utf16_length includes_empty_segment name_pattern_test ends_with
validate props =
    if str_eq props.name ""
    then err (account_name_is_not_correct cannot_be_empty)
    else if ltb 255 (utf16_length props.name)
    then err (account_name_is_not_correct account_name_size_exceeded)
    else if str_eq props.full_name ""
    then err (account_name_is_not_correct cannot_be_empty)
    else if ltb 1024 (utf16_length props.full_name)
    then err (account_name_is_not_correct account_name_size_exceeded)
    else if includes_empty_segment props.name || includes_empty_segment props.full_name
    then err (account_name_is_not_correct incorrect_name)
    else if not (name_pattern_test props.full_name)
    then err (account_name_is_not_correct incorrect_name)
    else if not (str_eq props.full_name props.name)
        && not (ends_with props.full_name (":" +s props.name))
    then err (account_name_is_not_correct name_and_fullname_is_not_equal)
    else ok tt

-- The constructor.
unfoldable pub new_account : Account → Result Account
new_account props = elim (validate props) [ ok _ ↦ ok props | err e ↦ err e ]
