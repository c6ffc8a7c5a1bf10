-- ===== src/Core/Chunking.antt =====
-- The presets of the chunker: core/src/chunker/config.rs and core/src/chunker/preset.rs, and the
-- choice of a preset for one resource in core/src/ingestion/pipeline.rs. A `usize` has 64 bits.
-- `to_lowercase` of a `str` is an argument.
use localdb.Prelude.{
  ℕ, ◌*◌, ◌%◌, ◌^◌, ◌==◌, Option, none, some, List, [], ◌∷◌, ◌++◌, Bool, true, false, not, ◌||◌,
  Text, codes, text_eq, contains, unwrap_or, if◌then◌else◌,
}
use localdb.Core.Errors.{Error, invalid_request, Result, ok, err}

pub record ChunkerConfig : Type 0 where
  pub preset : Text
  pub target_tokens : Option ℕ
  pub overlap_tokens : Option ℕ
  pub window_turns : Option ℕ
  pub stride_turns : Option ℕ

abbrev pub prose_config : ChunkerConfig
prose_config = record {
  preset = codes "prose";
  target_tokens = some 256;
  overlap_tokens = some 0;
  window_turns = none;
  stride_turns = none;
}

abbrev pub code_config : ChunkerConfig
code_config = record {
  preset = codes "code";
  target_tokens = some 3000;
  overlap_tokens = some 0;
  window_turns = none;
  stride_turns = none;
}

abbrev pub messages_config : ChunkerConfig
messages_config = record {
  preset = codes "messages";
  target_tokens = some 512;
  overlap_tokens = some 0;
  window_turns = some 6;
  stride_turns = some 3;
}

unfoldable pub from_preset : Text → Result Error ChunkerConfig
unfolding text_eq
from_preset preset =
    if text_eq preset (codes "prose")
    then ok prose_config
    else if text_eq preset (codes "code")
    then ok code_config
    else if text_eq preset (codes "messages")
    then ok messages_config
    else err (
        invalid_request (
          codes "unknown chunking preset '"
          ++ preset
          ++ codes "'; valid values: prose, code, messages"))

abbrev pub resolved_target_tokens : ChunkerConfig → ℕ
resolved_target_tokens c = unwrap_or c.target_tokens 256

abbrev pub resolved_overlap_tokens : ChunkerConfig → ℕ
resolved_overlap_tokens c = unwrap_or c.overlap_tokens 0

abbrev pub resolved_window_turns : ChunkerConfig → ℕ
resolved_window_turns c = unwrap_or c.window_turns 6

abbrev pub resolved_stride_turns : ChunkerConfig → ℕ
resolved_stride_turns c = unwrap_or c.stride_turns 3

unfoldable pub scale_to_chars : ChunkerConfig → ChunkerConfig
unfolding text_eq
scale_to_chars c =
    if text_eq c.preset (codes "prose")
    then record {
      preset = c.preset;
      target_tokens = some (resolved_target_tokens c * 4 % 2 ^ 64);
      overlap_tokens = some (resolved_overlap_tokens c * 4 % 2 ^ 64);
      window_turns = c.window_turns;
      stride_turns = c.stride_turns;
    }
    else c

abbrev code_exts : List Text
code_exts =
    codes "rs"
    ∷ codes "py"
    ∷ codes "js"
    ∷ codes "mjs"
    ∷ codes "ts"
    ∷ codes "tsx"
    ∷ codes "json"
    ∷ codes "yaml"
    ∷ codes "yml"
    ∷ codes "toml"
    ∷ codes "lock"
    ∷ codes "c"
    ∷ codes "h"
    ∷ codes "cpp"
    ∷ codes "hpp"
    ∷ codes "go"
    ∷ codes "java"
    ∷ codes "rb"
    ∷ codes "php"
    ∷ codes "sh"
    ∷ codes "css"
    ∷ codes "scss"
    ∷ codes "sql"
    ∷ codes "csv"
    ∷ codes "xml"
    ∷ codes "ini"
    ∷ codes "cfg"
    ∷ codes "xlsx"
    ∷ codes "xls"
    ∷ []

abbrev prose_exts : List Text
prose_exts =
    codes "md"
    ∷ codes "markdown"
    ∷ codes "html"
    ∷ codes "htm"
    ∷ codes "pdf"
    ∷ codes "txt"
    ∷ codes "text"
    ∷ []

abbrev lockfile_basenames : List Text
lockfile_basenames =
    codes "Cargo.lock"
    ∷ codes "package-lock.json"
    ∷ codes "yarn.lock"
    ∷ codes "poetry.lock"
    ∷ codes "Gemfile.lock"
    ∷ []

abbrev pub starts_with : Text → Text → Bool
starts_with [] s = true
starts_with (x ∷ p) [] = false
starts_with (x ∷ p) (y ∷ s) = let rest = starts_with p s in if x == y then rest else false

-- The text split at each occurrence of a byte.
abbrev pub split : ℕ → Text → List Text
split b [] = [] ∷ []
split b (x ∷ xs) =
    let rest = split b xs in
    if x == b then [] ∷ rest else elim rest [ [] ↦ (x ∷ []) ∷ [] | t ∷ ts ↦ (x ∷ t) ∷ ts ]

last_component : Option Text → List Text → Option Text
unfolding text_eq
last_component found [] = found
last_component found (c ∷ cs) =
    if text_eq c [] || text_eq c (codes ".")
    then last_component found cs
    else last_component (some c) cs

-- `Path::file_name`: the last component, unless it is `..`.
unfoldable pub file_name : Text → Option Text
unfolding last_component text_eq
file_name name = elim (last_component none (split 47 name)) [
  | none ↦ none
  | some c ↦ if text_eq c (codes "..") then none else some c
]

-- What stands behind the last dot, unless no dot or nothing but the dot's end stands before it.
after_dot : Bool → Text → Option Text → Option Text
after_dot started [] found = found
after_dot started (x ∷ xs) found =
    if x == 46
    then after_dot true xs (if started then some xs else found)
    else after_dot true xs found

-- `Path::extension`.
unfoldable pub extension : Text → Option Text
unfolding after_dot file_name
extension name = elim (file_name name) [ none ↦ none | some c ↦ after_dot false c none ]

by_mime : Option Text → Option Text
unfolding text_eq
by_mime none = none
by_mime (some m) =
    if text_eq m (codes "application/json") || starts_with (codes "text/x-") m
    then some (codes "code")
    else if text_eq m (codes "text/plain")
    then some (codes "prose")
    else none

by_extension : (Text → Text) → Option Text → Text
unfolding contains text_eq
by_extension to_lowercase none = codes "prose"
by_extension to_lowercase (some ext) =
    if contains (to_lowercase ext) code_exts
    then codes "code"
    else if contains (to_lowercase ext) prose_exts
    then codes "prose"
    else codes "prose"

by_filename : (Text → Text) → Option Text → Text
unfolding contains text_eq by_extension file_name extension
by_filename to_lowercase none = codes "prose"
by_filename to_lowercase (some name) =
    if contains (unwrap_or (file_name name) name) lockfile_basenames
    then codes "code"
    else by_extension to_lowercase (extension name)

unfoldable pub preset_for : (Text → Text) → Option Text → Option Text → Text
unfolding by_mime by_filename
preset_for to_lowercase filename mime = elim (by_mime mime) [
  | none ↦ by_filename to_lowercase filename
  | some preset ↦ preset
]

unfoldable pub effective_chunker_config :
    (Text → Text) → Text → ChunkerConfig → Option Text → Option Text → ChunkerConfig
unfolding text_eq preset_for
effective_chunker_config to_lowercase source_preset base_chunker filename_hint mime =
    if not (text_eq source_preset (codes "prose"))
    then base_chunker
    else if text_eq (preset_for to_lowercase filename_hint mime) (codes "code")
    then code_config
    else base_chunker
