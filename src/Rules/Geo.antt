-- ===== src/Rules/Geo.antt =====
-- The matchers of internal/client/routing: `domainMatches` (rules.go) and geo.go. Letters are folded
-- in ASCII only, as the names that DNS carries are ASCII; the two Cyrillic zones are given in UTF-8.
use quic_diver.Base.{
  ℕ, ◌+◌, ◌-◌, ◌/◌, ◌*◌, ◌^◌, Bool, true, false, not, ◌&&◌, ◌||◌, leb, ◌==◌, if◌then◌else◌, ite,
  List, [], ◌∷◌, ◌++◌, Str, Str-discrete, bytes, trim_space, has_prefix, contains_byte, Addr,
  invalid, v4, v6, Prefix, is_valid, contains, length, drop, map,
}

unfoldable pub lower : ℕ → ℕ
lower c = if leb b'A' c && leb c b'Z' then c + 32 else c

-- `strings.ToLower`
abbrev pub to_lower : Str → Str
to_lower s = map lower s

abbrev pub str_eq : Str → Str → Bool
str_eq a b = ite (Str-discrete a b) true false

-- `strings.HasSuffix`
unfoldable pub has_suffix : Str → Str → Bool
has_suffix s p = leb (length p) (length s) && str_eq (drop (length s - length p) s) p

-- `strings.TrimSuffix(s, ".")`
unfoldable pub trim_dot : Str → Str
trim_dot [] = []
trim_dot (c ∷ []) = if c == b'.' then [] else c ∷ []
trim_dot (c ∷ d ∷ s) = c ∷ trim_dot (d ∷ s)

-- `strings.EqualFold`
unfoldable pub equal_fold : Str → Str → Bool
unfolding lower
equal_fold a b = str_eq (to_lower a) (to_lower b)

-- `domainMatches` behind the folding of its arguments.
unfoldable pub suffix_matches : Str → Str → Bool
unfolding has_suffix
suffix_matches suffix name = str_eq name suffix || has_suffix name (b'.' ∷ suffix)

unfoldable pub domain_matches : Str → Str → Bool
unfolding suffix_matches trim_dot lower
domain_matches suffix name = suffix_matches (to_lower (trim_dot suffix)) (to_lower (trim_dot name))

-- "рф" in UTF-8.
abbrev pub zone_rf : Str
zone_rf = 0xd1 ∷ 0x80 ∷ 0xd1 ∷ 0x84 ∷ []

-- The dictionary `geoSiteCategories`; a category that it lacks has no entries.
unfoldable pub geo_site_domains : Str → List Str
geo_site_domains c =
    if str_eq c (bytes "google")
    then bytes "google.com"
      ∷ bytes "googlevideo.com"
      ∷ bytes "gstatic.com"
      ∷ bytes "youtube.com"
      ∷ bytes "ytimg.com"
      ∷ bytes "ggpht.com"
      ∷ bytes "googleapis.com"
      ∷ bytes "gvt1.com"
      ∷ bytes "gvt2.com"
      ∷ bytes "1e100.net"
      ∷ bytes "googleusercontent.com"
      ∷ bytes "gmail.com"
      ∷ bytes "doubleclick.net"
      ∷ []
    else if str_eq c (bytes "youtube")
    then bytes "youtube.com"
      ∷ bytes "googlevideo.com"
      ∷ bytes "ytimg.com"
      ∷ bytes "youtu.be"
      ∷ bytes "ggpht.com"
      ∷ []
    else if str_eq c (bytes "category-ads-all")
    then bytes "doubleclick.net"
      ∷ bytes "googleadservices.com"
      ∷ bytes "adservice.google.com"
      ∷ bytes "adnxs.com"
      ∷ bytes "adform.net"
      ∷ bytes "scorecardresearch.com"
      ∷ bytes "taboola.com"
      ∷ bytes "outbrain.com"
      ∷ bytes "criteo.com"
      ∷ bytes "yandex.ru/ads"
      ∷ bytes "an.yandex.ru"
      ∷ []
    else if str_eq c (bytes "ads")
    then bytes "doubleclick.net"
      ∷ bytes "googleadservices.com"
      ∷ bytes "adservice.google.com"
      ∷ bytes "adnxs.com"
      ∷ bytes "adform.net"
      ∷ bytes "scorecardresearch.com"
      ∷ bytes "taboola.com"
      ∷ []
    else if str_eq c (bytes "ru")
    then bytes "ru"
      ∷ bytes "su"
      ∷ zone_rf
      ∷ bytes "vk.com"
      ∷ bytes "yandex.ru"
      ∷ bytes "mail.ru"
      ∷ bytes "2ip.ru"
      ∷ bytes "2ip.io"
      ∷ bytes "sberbank.ru"
      ∷ bytes "ozon.ru"
      ∷ bytes "tinkoff.ru"
      ∷ bytes "gosuslugi.ru"
      ∷ bytes "ya.ru"
      ∷ []
    else if str_eq c (bytes "cn")
    then bytes "cn"
      ∷ bytes "baidu.com"
      ∷ bytes "qq.com"
      ∷ bytes "taobao.com"
      ∷ bytes "alipay.com"
      ∷ bytes "weibo.com"
      ∷ bytes "bilibili.com"
      ∷ bytes "jd.com"
      ∷ bytes "zhihu.com"
      ∷ []
    else if str_eq c (bytes "telegram")
    then bytes "telegram.org"
      ∷ bytes "telegram.me"
      ∷ bytes "t.me"
      ∷ bytes "tdesktop.com"
      ∷ bytes "telesco.pe"
      ∷ []
    else []

-- The loop over the entries of a category.
unfoldable pub any_matches : Str → List Str → Bool
any_matches domain [] = false
any_matches domain (s ∷ ss) = domain_matches s domain || any_matches domain ss

unfoldable pub geo_site_folded : Str → Str → Bool
unfolding any_matches geo_site_domains has_suffix domain_matches
geo_site_folded category domain =
    if str_eq domain []
    then false
    else if any_matches domain (geo_site_domains category)
    then true
    else if str_eq category (bytes "ru")
        && (has_suffix domain (bytes ".ru")
            || (has_suffix domain (b'.' ∷ zone_rf) || has_suffix domain (bytes ".su")))
    then true
    else if str_eq category (bytes "cn") && has_suffix domain (bytes ".cn")
    then true
    else domain_matches category domain

unfoldable pub geo_site_matches : Str → Str → Bool
unfolding geo_site_folded
geo_site_matches category domain =
    geo_site_folded (to_lower (trim_space category)) (to_lower (trim_space domain))

-- `geoIPPrivate`
abbrev pub geo_ip_private : List Prefix
geo_ip_private =
    record { addr = v4 0x7f000000; bits = 8 }
    ∷ record { addr = v4 0x0a000000; bits = 8 }
    ∷ record { addr = v4 0xac100000; bits = 12 }
    ∷ record { addr = v4 0xc0a80000; bits = 16 }
    ∷ record { addr = v4 0x64400000; bits = 10 }
    ∷ record { addr = v6 (0xfc00 * 2 ^ 112) []; bits = 7 }
    ∷ record { addr = v6 1 []; bits = 128 }
    ∷ []

unfoldable pub in_any : Addr → List Prefix → Bool
in_any a [] = false
in_any a (p ∷ ps) = contains p a || in_any a ps

-- `Addr.IsLoopback() || Addr.IsPrivate()`, on an IPv4 address also in its IPv6 form.
unfoldable pub is_local_v4 : ℕ → Bool
is_local_v4 n =
    n / 2 ^ 24 == 127 || (n / 2 ^ 24 == 10 || (n / 2 ^ 20 == 0xac1 || n / 2 ^ 16 == 0xc0a8))

unfoldable pub is_local : Addr → Bool
unfolding is_local_v4
is_local invalid = false
is_local (v4 n) = is_local_v4 n
is_local (v6 n z) =
    if n / 2 ^ 32 == 0xffff
    then is_local_v4 (n - 0xffff * 2 ^ 32)
    else n == 1 || n / 2 ^ 121 == 0x7e

unfoldable pub geo_ip_folded : Str → Addr → Bool
unfolding in_any is_local
geo_ip_folded code a =
    if str_eq code (bytes "private") || str_eq code (bytes "lan")
    then in_any a geo_ip_private
    else if str_eq code (bytes "local")
    then is_local a
    else false

unfoldable pub geo_ip_matches : Str → Addr → Bool
unfolding geo_ip_folded
geo_ip_matches code a = if is_valid a then geo_ip_folded (to_lower (trim_space code)) a else false

-- `NormalizeOutbound` behind its `TrimSpace`.
unfoldable pub normalize_trimmed : Str → Str
normalize_trimmed out =
    if str_eq out []
      || (str_eq out (bytes "direct") || (str_eq out (bytes "chain") || str_eq out (bytes "exit")))
    then out
    else if contains_byte out b',' && not (has_prefix out (bytes "path:"))
    then bytes "path:" ++ out
    else out

unfoldable pub normalize_outbound : Str → Str
unfolding normalize_trimmed
normalize_outbound out = normalize_trimmed (trim_space out)
