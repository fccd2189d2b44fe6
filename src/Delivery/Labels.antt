-- ===== src/Delivery/Labels.antt =====
-- internal/delivery/labels.go, and the title and the link of discord.go's embed.
pub mod Limit
use if_sos_beacon.Base.{
  Text, codes, ◌=ᵗ◌, ℕ, ◌-◌, ◌≤◌, ◌≡◌, refl, Bool, true, false, Option, none, some, List, [], ◌∷◌,
  ◌++◌, length, take, ltb, arith, length-append, if◌then◌else◌,
}
use if_sos_beacon.Base.Maps.{Map, lookup}
use if_sos_beacon.Base.Go.{Platform, to_upper}
use if_sos_beacon.Core.{Signal}

pub record SourceBrand : Type 0 where
  pub label : Text
  pub platform : Text
  pub user_tag : Text
  pub color : ℕ

abbrev pub source_brands : Map SourceBrand
source_brands =
    (
      codes "hn",
      record {
        label = codes "HN";
        platform = codes "Hacker News";
        user_tag = [];
        color = 0xFF6600;
      },
    )
    ∷ (
      codes "lobsters",
      record { label = codes "LB"; platform = codes "Lobsters"; user_tag = []; color = 0xAC130D },
    )
    ∷ (
      codes "reddit",
      record {
        label = codes "RD";
        platform = codes "Reddit";
        user_tag = codes "u/";
        color = 0xFF4500;
      },
    )
    ∷ []

abbrev zero_brand : SourceBrand
zero_brand = record { label = []; platform = []; user_tag = []; color = 0 }

abbrev pub or_text : Text → Text → Text
or_text [] other = other
or_text (c ∷ s) other = c ∷ s

on_platform : Text → Text → Text
on_platform who [] = who
on_platform who (c ∷ s) = who ++ codes " on " ++ c ∷ s

attribution_of : SourceBrand → Text → Text → Text
unfolding on_platform
attribution_of b source author = on_platform (b.user_tag ++ author) (or_text b.platform source)

unfoldable pub attribution : Text → Text → Text
unfolding attribution_of
attribution source [] = []
attribution source (c ∷ s) = elim (lookup source source_brands) [
  | none ↦ attribution_of zero_brand source (c ∷ s)
  | some b ↦ attribution_of b source (c ∷ s)
]

unfoldable pub source_label : Platform → Text → Text × ℕ
unfolding to_upper
source_label p source = elim (lookup source source_brands) [
  | some b ↦ (b.label, b.color)
  | none ↦ if source =ᵗ [] then (codes "??", 0) else (to_upper p source, 0)
]

abbrev pub title_limit : ℕ
title_limit = 256

unfoldable pub full_title : Platform → Signal → Text
unfolding source_label
full_title p s = codes "[" ++ (source_label p s.source).0 ++ codes "] " ++ or_text s.title s.id

unfoldable pub embed_title : Platform → Signal → Text
unfolding full_title
embed_title p s =
    let full = full_title p s in
    if ltb title_limit (length full) then take (title_limit - 1) full ++ codes "…" else full

unfoldable pub thread_link : Signal → Text
thread_link s = or_text s.permalink s.url
