-- ===== src/Tests/Lists.antt =====
-- Domain sets and blocklists at concrete inputs.
use sis.Base.{◌≡◌, Bool, false, not, ◌&&◌, ◌||◌, some, List, [], ◌∷◌, Str, codes, any, leb}
use sis.Policy.Domains.{new_domains, add, delete, match}
use sis.Policy.Domains.Laws.{covers, same_name, holds, match-add_lem, holds-delete}
use sis.Policy.Parser.{parse_blocklist}
use sis.Policy.Parser.Counts.{listed, match-parse_blocklist}
use sis.Tests.Data.{plain, ads}

match-add_lem_example :
    match plain (add plain (some new_domains) ads).0 (codes "x.ads.com")
    ≡ (covers plain ads (codes "x.ads.com") || match plain (some new_domains) (codes "x.ads.com"))
match-add_lem_example = match-add_lem plain new_domains ads (codes "x.ads.com")

holds-delete_example :
    holds plain (delete plain (some new_domains) ads).0 ads
    ≡ (not (same_name plain ads ads) && holds plain (some new_domains) ads)
holds-delete_example = holds-delete plain new_domains ads ads

-- A hosts file with a comment and a line that names no domain.
abbrev hosts : List Str
hosts = codes "# ads" ∷ codes "0.0.0.0 ads.com # yes" ∷ codes "no_domain" ∷ []

abbrev zero_is_ip : Str → Bool
zero_is_ip s = has_zero s
  where
    has_zero : Str → Bool
    has_zero [] = false
    has_zero (c ∷ s) = leb c 48

match-parse_blocklist_example :
    match plain (parse_blocklist plain zero_is_ip hosts false).0 ads
    ≡ any (listed plain zero_is_ip ads) hosts
match-parse_blocklist_example = match-parse_blocklist plain zero_is_ip hosts ads
