-- ===== src/Areas.antt =====
-- `crates/domain/src/areas.rs`: the delivery areas and the time zones that the setup UI offers.
mod Codes
mod Zones
mod Examples
use Prim.Native.Nat.{Ordering}
use Prim.Native.String.{compare}
use spot_price.Prelude.{
  String, Bool, true, false, Option, List, [], ◌∷◌, map, find, any, str_eq, if◌then◌else◌, ◌||◌,
}

pub data Area : Type 0 where
  fi se1 se2 se3 se4 no1 no2 no3 no4 no5 dk1 dk2 ee lt lv at be fr ger nl pl : Area

abbrev pub all_areas : List Area
all_areas =
    fi ∷ se1 ∷ se2 ∷ se3 ∷ se4 ∷ no1 ∷ no2 ∷ no3 ∷ no4 ∷ no5 ∷ dk1 ∷ dk2 ∷ ee ∷ lt ∷ lv ∷ at ∷ be
    ∷ fr ∷ ger ∷ nl ∷ pl ∷ []

-- The Nord Pool delivery area code, which is also the wire value.
unfoldable pub code : Area → String
code fi = "FI"
code se1 = "SE1"
code se2 = "SE2"
code se3 = "SE3"
code se4 = "SE4"
code no1 = "NO1"
code no2 = "NO2"
code no3 = "NO3"
code no4 = "NO4"
code no5 = "NO5"
code dk1 = "DK1"
code dk2 = "DK2"
code ee = "EE"
code lt = "LT"
code lv = "LV"
code at = "AT"
code be = "BE"
code fr = "FR"
code ger = "GER"
code nl = "NL"
code pl = "PL"

-- The display name of the setup UI.
unfoldable pub name : Area → String
name fi = "Finland"
name se1 = "Sweden — Luleå"
name se2 = "Sweden — Sundsvall"
name se3 = "Sweden — Stockholm"
name se4 = "Sweden — Malmö"
name no1 = "Norway — Oslo"
name no2 = "Norway — Kristiansand"
name no3 = "Norway — Trondheim"
name no4 = "Norway — Tromsø"
name no5 = "Norway — Bergen"
name dk1 = "Denmark — West"
name dk2 = "Denmark — East"
name ee = "Estonia"
name lt = "Lithuania"
name lv = "Latvia"
name at = "Austria"
name be = "Belgium"
name fr = "France"
name ger = "Germany"
name nl = "Netherlands"
name pl = "Poland"

-- The ISO 3166 country code.
unfoldable pub country : Area → String
country fi = "FI"
country se1 = "SE"
country se2 = "SE"
country se3 = "SE"
country se4 = "SE"
country no1 = "NO"
country no2 = "NO"
country no3 = "NO"
country no4 = "NO"
country no5 = "NO"
country dk1 = "DK"
country dk2 = "DK"
country ee = "EE"
country lt = "LT"
country lv = "LV"
country at = "AT"
country be = "BE"
country fr = "FR"
country ger = "DE"
country nl = "NL"
country pl = "PL"

-- The default IANA time zone.
unfoldable pub timezone : Area → String
timezone fi = "Europe/Helsinki"
timezone se1 = "Europe/Stockholm"
timezone se2 = "Europe/Stockholm"
timezone se3 = "Europe/Stockholm"
timezone se4 = "Europe/Stockholm"
timezone no1 = "Europe/Oslo"
timezone no2 = "Europe/Oslo"
timezone no3 = "Europe/Oslo"
timezone no4 = "Europe/Oslo"
timezone no5 = "Europe/Oslo"
timezone dk1 = "Europe/Copenhagen"
timezone dk2 = "Europe/Copenhagen"
timezone ee = "Europe/Tallinn"
timezone lt = "Europe/Vilnius"
timezone lv = "Europe/Riga"
timezone at = "Europe/Vienna"
timezone be = "Europe/Brussels"
timezone fr = "Europe/Paris"
timezone ger = "Europe/Berlin"
timezone nl = "Europe/Amsterdam"
timezone pl = "Europe/Warsaw"

-- `FromStr for Area`; `none` is `UnknownArea`.
unfoldable pub from_str : String → Option Area
unfolding code
from_str text = find (λ area. str_eq (code area) text) all_areas

-- `slice::sort_unstable` on names: the order of the bytes. Equal names cannot be told apart.
abbrev le_name : String → String → Bool
le_name a b = elim (compare a b) [ Ordering.gt ↦ false | _ ↦ true ]

insert_name : String → List String → List String
insert_name a [] = a ∷ []
insert_name a (b ∷ bs) = if le_name a b then a ∷ b ∷ bs else b ∷ insert_name a bs

sort_names : List String → List String
unfolding insert_name
sort_names [] = []
sort_names (a ∷ bs) = insert_name a (sort_names bs)

-- `Vec::dedup`: drops an element that equals the one before it.
dedup_after : String → List String → List String
dedup_after a [] = []
dedup_after a (b ∷ bs) = if str_eq a b then dedup_after a bs else b ∷ dedup_after b bs

dedup : List String → List String
unfolding dedup_after
dedup [] = []
dedup (a ∷ bs) = a ∷ dedup_after a bs

unfoldable pub supported_timezones : List String
unfolding timezone sort_names dedup
supported_timezones = dedup (sort_names (map timezone all_areas))

unfoldable pub is_supported_timezone : String → Bool
unfolding timezone
is_supported_timezone zone = any (λ area. str_eq (timezone area) zone) all_areas
