-- ===== src/Chain.antt =====
-- golden_rotate.py: the record of how many rebakes lie between the golden and its master, and what
-- the next rebake starts from. The depth stands beside the golden, in a mirror off the images store,
-- or in a marker; a copy has its modification time and its depth, `none` where it cannot be read. The
-- markers stand in the backup folder, in the order in which it lists them.
pub mod Newest
pub mod Markers
pub mod Choice
mod Tests
use win_validator.Base.{
  ℕ, Bool, true, false, not, ◌&&◌, ◌||◌, List, [], ◌∷◌, ◌++◌, Option, none, some, or_else, Text,
  text_eq, keep, strip, is_empty, int_of, ltb, ℤ, pos, ltb_ℤ, Outcome, ok, raised, if◌then◌else◌,
}

pub record Depth : Type 0 where
  pub mtime : ℕ
  pub depth : Option ℤ

-- `<candidate>.chain.unrecorded`
pub record Marker : Type 0 where
  pub name : Text
  pub copy : Depth

pub record Records : Type 0 where
  pub chain : Option Depth
  pub mirror : Option Depth
  pub markers : List Marker
  pub sidecar : Option (Option Text)

-- `_read_depth` of a copy that exists: one that cannot be read counts as the bound.
abbrev pub read_depth : ℤ → Depth → ℤ
read_depth max d = or_else d.depth max

abbrev pub newer : Depth → Depth → Depth
newer d e = if ltb d.mtime e.mtime then e else d

abbrev pub newer_of : Option Depth → Option Depth → Option Depth
newer_of none e = e
newer_of (some d) none = some d
newer_of (some d) (some e) = some (newer d e)

-- `_newest_orphan_sidecar`: the newest marker, the first of those that are equally new.
abbrev pub newest : List Marker → Option Depth
newest [] = none
newest (m ∷ ms) = newer_of (some m.copy) (newest ms)

abbrev pub depth_of : ℤ → Option Depth → ℤ
depth_of max none = pos 0
depth_of max (some d) = read_depth max d

-- `chain_length`: the newest copy, the first of those that are equally new; 0 without a copy.
unfoldable pub chain_length : ℤ → Records → ℤ
chain_length max r = depth_of max (newer_of (newer_of r.chain r.mirror) (newest r.markers))

-- What the commands of `_record_chain` answer, the name of the candidate's marker, and the time of its
-- sidecar.
pub record Writes : Type 0 where
  pub mirror : Bool
  pub chain : Bool
  pub removes : Bool
  pub renames : Bool
  pub touches : Bool
  pub marker_name : Text
  pub built : ℕ

-- The depth of the candidate's sidecar: 0 where it is blank, and the bound where the provenance is
-- unknown (no sidecar, one that cannot be read, or not a number).
unfoldable pub candidate_depth : ℤ → Option (Option Text) → ℤ
unfolding int_of
candidate_depth max none = max
candidate_depth max (some none) = max
candidate_depth max (some (some text)) =
    if is_empty (strip text) then pos 0 else or_else (int_of text) max

abbrev pub parsed : Option Text → Option ℤ
parsed none = none
parsed (some text) = int_of text

abbrev pub gone {ℓ} : {A : Type ℓ} → Bool → Option A → Option A
gone removes file = if removes then none else file

-- `_keep_as_unrecorded`: the sidecar becomes the marker, in place of one of that name. The rename keeps
-- the sidecar's time; a touch, which nothing checks, dates it now.
abbrev pub kept_marker : Writes → ℕ → Option Text → Marker
kept_marker w now text = record {
  name = w.marker_name;
  copy = record { mtime = if w.touches then now else w.built; depth = parsed text };
}

abbrev pub keep_as_unrecorded : Writes → ℕ → Option (Option Text) → Records → Records
keep_as_unrecorded w now none r = r
keep_as_unrecorded w now (some text) r =
    if w.renames
    then record r {
      markers = kept_marker w now text ∷ keep (λ m. not (text_eq m.name w.marker_name)) r.markers;
      sidecar = none;
    }
    else r

-- `_record_chain`, at the time `now`.
unfoldable pub record_chain : ℤ → Writes → ℕ → Records → Records
unfolding candidate_depth
record_chain max w now r =
    let made : Depth = record { mtime = now; depth = some (candidate_depth max r.sidecar) } in
    if w.chain
    then record r {
      chain = some made;
      sidecar = gone w.removes r.sidecar;
      mirror = if w.mirror then some made else gone w.removes r.mirror;
    }
    else if w.mirror
    then record r {
      mirror = some made;
      chain = gone w.removes r.chain;
      sidecar = gone w.removes r.sidecar;
    }
    else keep_as_unrecorded w now r.sidecar r

pub data Source : Type 0 where
  golden master : Source

-- `rebake_source`; `none` is its NothingPublished.
unfoldable pub rebake_source : (wants_master has_golden has_master : Bool) → ℤ → ℤ → Option Source
rebake_source wants_master has_golden has_master max length =
    let due = wants_master || not (ltb_ℤ length max) in
    if due && has_master
    then some master
    else if has_golden
    then some golden
    else if has_master
    then some master
    else none
