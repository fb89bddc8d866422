-- ===== src/Sessions/Tests.antt =====
-- What some headers are read as.
use remote_connect_backend.Base.{◌≡◌, refl, none, some, ◌∷◌, ◌++◌}
use remote_connect_backend.Base.Text.{Text, codes}
use remote_connect_backend.Sessions.Devices.{
  lower, after_literal, is_in, first_named, until_quote, brand_at, find_brands, real_brands,
  version_of, first_brand, infer_operating_system_from_user_agent, parse_sec_ch_ua,
}
use remote_connect_backend.Sessions.Agents.{
  version_prefix, version_at, safari_at, search_text, first_browser, parse_user_agent,
  infer_browser_and_version,
}

abbrev quoted_text : Text → Text
quoted_text t = 34 ∷ t ++ codes "\""

abbrev brands : Text
brands =
    quoted_text (codes "Not_A Brand")
    ++ codes ";v="
    ++ quoted_text (codes "8")
    ++ codes ", "
    ++ quoted_text (codes "Chromium")
    ++ codes ";v="
    ++ quoted_text (codes "120")

brands_chrome : infer_browser_and_version (some brands) none ≡ (codes "Google Chrome", codes "120")
unfolding infer_browser_and_version parse_sec_ch_ua find_brands brand_at until_quote after_literal
    lower is_in real_brands version_of first_brand
brands_chrome = refl

abbrev iphone : Text
iphone = codes "Mozilla/5.0 (iPhone; CPU iPhone OS 17_0 like Mac OS X) Version/17.0 Safari/604.1"

iphone_safari : infer_browser_and_version none (some iphone) ≡ (codes "Safari", codes "17.0")
unfolding infer_browser_and_version parse_sec_ch_ua parse_user_agent lower after_literal is_in
    first_browser search_text version_at version_prefix safari_at
iphone_safari = refl

-- The words of a Mac are looked for before those of an iPhone.
iphone_macos : infer_operating_system_from_user_agent (some iphone) ≡ codes "MacOS"
unfolding infer_operating_system_from_user_agent first_named is_in after_literal lower
iphone_macos = refl
