-- ===== src/Sessions/Agents.antt =====
-- `_parse_user_agent` and `_infer_browser_and_version` of
-- apps/app/modules/user/repositories/user_sessions_resposity.py. The patterns ignore case, so they are
-- read against the lower case; digits are those of ASCII.
use remote_connect_backend.Base.{
  ℕ, Bool, ◌&&◌, ◌||◌, Option, none, some, List, [], ◌∷◌, if◌then◌else◌, leb, ◌==◌,
}
use remote_connect_backend.Base.Text.{Text, codes}
use remote_connect_backend.Sessions.Devices.{
  lower, after_literal, is_in, unknown, given, parse_sec_ch_ua,
}

-- `[\d.]+` and what follows.
abbrev is_version : ℕ → Bool
is_version c = (leb 48 c && leb c 57) || (c == 46)

unfoldable pub version_prefix : Text → Text × Text
version_prefix [] = ([], [])
version_prefix (c ∷ cs) =
    let (version, rest) = version_prefix cs in
    if is_version c then (c ∷ version, rest) else ([], c ∷ cs)

abbrev pub non_empty_version : Text × Text → Option (Text × Text)
non_empty_version ([], rest) = none
non_empty_version (c ∷ cs, rest) = some (c ∷ cs, rest)

abbrev pub version_after : Option Text → Option (Text × Text)
version_after none = none
version_after (some text) = non_empty_version (version_prefix text)

-- Where a word of a list stands, the version after it.
unfoldable pub version_at : List Text → Text → Option Text
version_at [] text = none
version_at (w ∷ ws) text = elim (version_after (after_literal w text)) [
  | none ↦ version_at ws text
  | some (version, rest) ↦ some version
]

-- `Version/([\d.]+).*Safari`
abbrev pub before_safari : Option (Text × Text) → Option Text
before_safari none = none
before_safari (some (version, rest)) = if is_in (codes "safari") rest then some version else none

unfoldable pub safari_at : Text → Option Text
safari_at text = before_safari (version_after (after_literal (codes "version/") text))

-- `pattern.search`: the first place where the pattern fits.
unfoldable pub search_text : (Text → Option Text) → Text → Option Text
search_text pattern [] = pattern []
search_text pattern (c ∷ cs) = elim (pattern (c ∷ cs)) [
  | none ↦ search_text pattern cs
  | some version ↦ some version
]

-- `_USER_AGENT_BROWSER_PATTERNS`
abbrev pub browser_patterns : List (Text × (Text → Option Text))
browser_patterns =
    (
      codes "Microsoft Edge",
      version_at (codes "edge/" ∷ codes "edga/" ∷ codes "edgios/" ∷ codes "edg/" ∷ []),
    )
    ∷ (codes "Opera", version_at (codes "opr/" ∷ []))
    ∷ (codes "Brave", version_at (codes "brave/" ∷ []))
    ∷ (codes "Mozilla Firefox", version_at (codes "firefox/" ∷ []))
    ∷ (codes "Google Chrome", version_at (codes "chrome/" ∷ []))
    ∷ (codes "Safari", safari_at)
    ∷ []

unfoldable pub first_browser : List (Text × (Text → Option Text)) → Text → Option (Text × Text)
first_browser [] agent = none
first_browser ((name, pattern) ∷ rest) agent = elim (search_text pattern agent) [
  | none ↦ first_browser rest agent
  | some version ↦ some (name, version)
]

abbrev pub parsed_agent : Option Text → Option (Text × Text)
parsed_agent none = none
parsed_agent (some agent) = first_browser browser_patterns (lower agent)

unfoldable pub parse_user_agent : Option Text → Option (Text × Text)
parse_user_agent user_agent = parsed_agent (given user_agent)

abbrev pub or_unknown : Option (Text × Text) → Text × Text
or_unknown none = (unknown, unknown)
or_unknown (some (browser, version)) = (browser, version)

-- What the brands say, or else the user agent. Neither gives an empty name or version.
abbrev pub browser_or_agent : Option (Text × Text) → Option Text → Text × Text
browser_or_agent (some found) user_agent = found
browser_or_agent none user_agent = or_unknown (parse_user_agent user_agent)

unfoldable pub infer_browser_and_version : Option Text → Option Text → Text × Text
infer_browser_and_version sec_ch_ua user_agent =
    browser_or_agent (parse_sec_ch_ua sec_ch_ua) user_agent
