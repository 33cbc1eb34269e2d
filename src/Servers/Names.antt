-- ===== src/Servers/Names.antt =====
-- From the user's words to groups and locations: internal/string.go and daemon/servers.go.
use nordvpn_linux.Prelude.{
  ℕ, ℤ, Bool, false, ◌&&◌, ◌||◌, ◌==◌, nat_eq, text_eq, Option, none, some, List, [], ◌∷◌, ◌++◌,
  Text, codes, to_lower, is_lower, is_upper, is_digit, if◌then◌else◌, String,
}
use nordvpn_linux.Config.Group
use nordvpn_linux.Config.Group.{ServerGroup}

-- the characters that `[^0-9a-zA-Z \-_]` leaves
abbrev is_kept : ℕ → Bool
is_kept c = is_digit c || is_lower c || is_upper c || c == b' ' || c == b'-' || c == b'_'

unfoldable pub remove_non_alphanumeric : Text → Text
remove_non_alphanumeric [] = []
remove_non_alphanumeric (c ∷ s) =
    let rest = remove_non_alphanumeric s in if is_kept c then c ∷ rest else rest

-- strings.Split(s, " "): `word` is the part that is being read
split_spaces : Text → Text → List Text
split_spaces word [] = word ∷ []
split_spaces word (c ∷ s) =
    let next = word ∷ split_spaces [] s in
    let more = split_spaces (word ++ c ∷ []) s in if c == b' ' then next else more

-- the loop of `SnakeCase`: words in lower case, each with a `_` behind it
snake_words : List Text → Text
unfolding to_lower
snake_words [] = []
snake_words (w ∷ ws) =
    let rest = snake_words ws in elim w [ [] ↦ rest | c ∷ s ↦ to_lower (c ∷ s) ++ b'_' ∷ rest ]

-- strings.TrimRight(s, "_")
trim_right_underscores : Text → Text
trim_right_underscores [] = []
trim_right_underscores (c ∷ s) =
    let rest = trim_right_underscores s in
    elim rest [ [] ↦ if c == b'_' then [] else c ∷ [] | d ∷ t ↦ c ∷ d ∷ t ]

unfoldable pub snake_case : Text → Text
unfolding remove_non_alphanumeric split_spaces snake_words trim_right_underscores
snake_case name =
    trim_right_underscores (snake_words (split_spaces [] (remove_non_alphanumeric name)))

-- a map with text keys
abbrev lookup_group : Text → List (String × ServerGroup) → Option ServerGroup
lookup_group key [] = none
lookup_group key ((name, group) ∷ m) = if codes name == key then some group else lookup_group key m

-- config/server_groups.go
abbrev group_map : List (String × ServerGroup)
group_map =
    ("double_vpn", Group.double_vpn)
    ∷ ("onion_over_vpn", Group.onion_over_vpn)
    ∷ ("dedicated_ip", Group.dedicated_ip)
    ∷ ("standard_vpn_servers", Group.standard_vpn_servers)
    ∷ ("p2p", Group.p2p)
    ∷ ("europe", Group.europe)
    ∷ ("the_americas", Group.the_americas)
    ∷ ("asia_pacific", Group.asia_pacific)
    ∷ ("africa_the_middle_east_and_india", Group.africa_middle_east_india)
    ∷ ("obfuscated_servers", Group.obfuscated)
    ∷ []

abbrev or_undefined : Option ServerGroup → ServerGroup
or_undefined none = Group.undefined
or_undefined (some group) = group

unfoldable pub group_convert : Text → ServerGroup
unfolding snake_case
group_convert name = or_undefined (lookup_group (snake_case name) group_map)

pub record City : Type 0 where
  pub id : ℤ
  pub name : Text

pub record Country : Type 0 where
  pub id : ℤ
  pub name : Text
  pub code : Text
  pub cities : List City

-- `ServerBy`
pub data ServerBy : Type 0 where
  by_unknown by_speed by_country by_city by_name : ServerBy

pub record ServerTag : Type 0 where
  pub action : ServerBy
  pub id : ℤ

-- `equal_fold` is strings.EqualFold
module _ (equal_fold : Text → Text → Bool) where
  -- the loop over a country's cities
  find_city : Text → Text → Text → List City → Option City
  find_city name country_name country_code [] = none
  find_city name country_name country_code (city ∷ cities) =
      let rest = find_city name country_name country_code cities in
      let city_name = snake_case city.name in
      if equal_fold name city_name
        || equal_fold name (country_name ++ b' ' ∷ city_name)
        || equal_fold name (country_code ++ b' ' ∷ city_name)
      then some city
      else rest

  -- `locationByName`: the country, and the city if the name is a city's
  unfoldable pub location_by_name : Text → List Country → Option (Country × Option City)
  unfolding find_city snake_case
  location_by_name name [] = none
  location_by_name name (country ∷ countries) =
      let rest = location_by_name name countries in
      let country_name = snake_case country.name in
      let country_code = snake_case country.code in
      if equal_fold name country_name || equal_fold name country_code
      then some (country, none)
      else elim (find_city name country_name country_code country.cities) [
        | none ↦ rest
        | some city ↦ some (country, some city)
      ]

  tag_of : Option (Country × Option City) → Option ServerTag
  tag_of none = none
  tag_of (some (country, none)) = some (record { action = by_country; id = country.id })
  tag_of (some (country, some city)) = some (record { action = by_city; id = city.id })

  unfoldable pub server_location_tag_from_string : Text → List Country → Option ServerTag
  unfolding location_by_name tag_of
  server_location_tag_from_string tag countries = tag_of (location_by_name tag countries)

-- the regular expression `^[a-z]{2}[0-9]{2,4}$`
unfoldable pub matches_tag : Text → Bool
matches_tag (a ∷ b ∷ c ∷ d ∷ []) = is_lower a && is_lower b && is_digit c && is_digit d
matches_tag (a ∷ b ∷ c ∷ d ∷ e ∷ []) =
    is_lower a && is_lower b && is_digit c && is_digit d && is_digit e
matches_tag (a ∷ b ∷ c ∷ d ∷ e ∷ f ∷ []) =
    is_lower a && is_lower b && is_digit c && is_digit d && is_digit e && is_digit f
matches_tag _ = false
