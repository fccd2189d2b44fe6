-- ===== src/Prompts.antt =====
-- internal/prompts/embed.go: the system prompt of a beacon. The two embedded files are parameters.
pub mod Replace
pub mod Filled
use if_sos_beacon.Base.{Text, codes, List, [], ◌∷◌, ◌++◌}
use if_sos_beacon.Base.Go.{trim_space}
use if_sos_beacon.Core.{Bucket, BeaconContext}
use if_sos_beacon.Prompts.Replace.{replace_all}

-- The emoji in brackets, if there is one.
emoji_part : Text → Text
emoji_part [] = []
emoji_part (c ∷ s) = codes " (" ++ (c ∷ s) ++ codes ")"

bucket_line : Bucket → Text
unfolding emoji_part
bucket_line b =
    codes "- " ++ b.name ++ emoji_part b.emoji ++ codes ": " ++ b.definition ++ codes "\n"

unfoldable pub bucket_lines : List Bucket → Text
unfolding bucket_line
bucket_lines [] = []
bucket_lines (b ∷ bs) = bucket_line b ++ bucket_lines bs

-- The three substitutions, in their order.
unfoldable pub build_system : Text → Text → BeaconContext → Text
build_system template schema bc =
    let s1 = replace_all template (codes "{{CONTEXT}}") (trim_space bc.context) in
    let s2 = replace_all s1 (codes "{{BUCKETS}}") (trim_space (bucket_lines bc.buckets)) in
    replace_all s2 (codes "{{SCHEMA}}") (trim_space schema)
