-- ===== src/Sessions/Devices.antt =====
-- How apps/app/modules/user/repositories/user_sessions_resposity.py tells the client of a login from
-- the headers of its request. Only letters of ASCII have a lower case here. A regular expression is the
-- function that searches for it.
use remote_connect_backend.Base.{
  ℕ, zero, suc, ◌+◌, Bool, true, false, ◌&&◌, ◌||◌, Option, none, some, is_some, List, [], ◌∷◌,
  ◌++◌, length, if◌then◌else◌, leb, ◌==◌,
}
use remote_connect_backend.Base.Text.{Text, codes}

abbrev pub lower_case : ℕ → ℕ
lower_case c = if leb 65 c && leb c 90 then c + 32 else c

unfoldable pub lower : Text → Text
lower [] = []
lower (c ∷ cs) = lower_case c ∷ lower cs

-- The rest of a text after a literal.
unfoldable pub after_literal : Text → Text → Option Text
after_literal [] text = some text
after_literal (c ∷ cs) [] = none
after_literal (c ∷ cs) (d ∷ ds) = if c == d then after_literal cs ds else none

-- `part in text`
unfoldable pub is_in : Text → Text → Bool
is_in part [] = is_some (after_literal part [])
is_in part (c ∷ cs) = is_some (after_literal part (c ∷ cs)) || is_in part cs

abbrev pub unknown : Text
unknown = codes "Unknown"

abbrev pub is_empty : Text → Bool
is_empty [] = true
is_empty (c ∷ cs) = false

-- A header that is there and not empty.
abbrev pub given : Option Text → Option Text
given none = none
given (some t) = if is_empty t then none else some t

-- The first name whose words have one in the text.
abbrev pub any_in : List Text → Text → Bool
any_in [] text = false
any_in (w ∷ ws) text = is_in w text || any_in ws text

unfoldable pub first_named : List (Text × List Text) → Text → Text → Text
first_named [] default text = default
first_named ((name, words) ∷ rest) default text =
    if any_in words text then name else first_named rest default text

abbrev pub named_or_unknown : List (Text × List Text) → Text → Option Text → Text
named_or_unknown names default none = unknown
named_or_unknown names default (some t) = first_named names default (lower t)

abbrev device_names : List (Text × List Text)
device_names =
    (codes "Mobile", codes "mobile" ∷ codes "android" ∷ codes "iphone" ∷ [])
    ∷ (codes "Tablet", codes "tablet" ∷ codes "ipad" ∷ [])
    ∷ []

unfoldable pub infer_device_type : Option Text → Text
infer_device_type device_type = named_or_unknown device_names (codes "Desktop") (given device_type)

abbrev system_names : List (Text × List Text)
system_names =
    (codes "Windows", codes "windows" ∷ [])
    ∷ (codes "MacOS", codes "macos" ∷ [])
    ∷ (codes "Linux", codes "linux" ∷ [])
    ∷ []

unfoldable pub infer_operating_system : Option Text → Text
infer_operating_system system = named_or_unknown system_names unknown (given system)

abbrev agent_system_names : List (Text × List Text)
agent_system_names =
    (codes "Windows", codes "windows" ∷ [])
    ∷ (codes "MacOS", codes "macos" ∷ codes "mac os" ∷ codes "macintosh" ∷ [])
    ∷ (codes "Android", codes "android" ∷ [])
    ∷ (codes "iOS", codes "iphone" ∷ codes "ipad" ∷ codes "ios" ∷ [])
    ∷ (codes "Linux", codes "linux" ∷ [])
    ∷ []

unfoldable pub infer_operating_system_from_user_agent : Option Text → Text
infer_operating_system_from_user_agent user_agent =
    named_or_unknown agent_system_names unknown (given user_agent)

-- `[^"]+` and what follows.
abbrev pub quote : ℕ
quote = 34

unfoldable pub until_quote : Text → Text × Text
until_quote [] = ([], [])
until_quote (c ∷ cs) =
    let (name, rest) = until_quote cs in if c == quote then ([], c ∷ cs) else (c ∷ name, rest)

-- `([^"]+)` up to a literal that begins with a quote.
abbrev pub non_empty : Text → Option Text → Option (Text × Text)
non_empty [] rest = none
non_empty (c ∷ cs) none = none
non_empty (c ∷ cs) (some rest) = some (c ∷ cs, rest)

abbrev pub quoted : Text → Text → Option (Text × Text)
quoted literal text =
    let (name, rest) = until_quote text in non_empty name (after_literal literal rest)

abbrev pub brand_version : Option (Text × Text) → Option ((Text × Text) × Text)
brand_version none = none
brand_version (some (name, text)) = elim (quoted (quote ∷ []) text) [
  | none ↦ none
  | some (version, rest) ↦ some ((name, version), rest)
]

-- `"([^"]+)";v="([^"]+)"` at the head of a text.
unfoldable pub brand_at : Text → Option ((Text × Text) × Text)
brand_at text = elim (after_literal (quote ∷ []) text) [
  | none ↦ none
  | some rest ↦ brand_version (quoted (quote ∷ codes ";v=" ++ quote ∷ []) rest)
]

-- `re.findall`: each match takes at least one code point, so the length of the text is enough fuel.
unfoldable pub find_brands : ℕ → Text → List (Text × Text)
find_brands zero text = []
find_brands (suc fuel) [] = []
find_brands (suc fuel) (c ∷ cs) = elim (brand_at (c ∷ cs)) [
  | none ↦ find_brands fuel cs
  | some (brand, rest) ↦ brand ∷ find_brands fuel rest
]

unfoldable pub real_brands : List (Text × Text) → List (Text × Text)
real_brands [] = []
real_brands ((name, version) ∷ rest) =
    let others = real_brands rest in
    if is_some (after_literal (codes "not") (lower name)) then others else (name, version) ∷ others

unfoldable pub version_of : Text → List (Text × Text) → Option Text
version_of word [] = none
version_of word ((name, version) ∷ rest) =
    if is_in word (lower name) then some version else version_of word rest

-- `_SEC_CH_UA_BRANDS`, and the last resort.
abbrev brand_names : List (Text × Text)
brand_names =
    (codes "Microsoft Edge", codes "microsoft edge")
    ∷ (codes "Google Chrome", codes "google chrome")
    ∷ (codes "Opera", codes "opera")
    ∷ (codes "Brave", codes "brave")
    ∷ (codes "Google Chrome", codes "chromium")
    ∷ []

unfoldable pub first_brand : List (Text × Text) → List (Text × Text) → Option (Text × Text)
first_brand [] brands = none
first_brand ((shown, word) ∷ rest) brands = elim (version_of word brands) [
  | none ↦ first_brand rest brands
  | some version ↦ some (shown, version)
]

abbrev pub parsed_brand : Option Text → Option (Text × Text)
parsed_brand none = none
parsed_brand (some t) = first_brand brand_names (real_brands (find_brands (length t) t))

unfoldable pub parse_sec_ch_ua : Option Text → Option (Text × Text)
parse_sec_ch_ua sec_ch_ua = parsed_brand (given sec_ch_ua)
