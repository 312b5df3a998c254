-- ===== src/Config/Issues.antt =====
-- internal/config/validate.go: what Validate reports, before it is printed.
use sis.Base.{ℕ, Bool, List, [], ◌∷◌, Str, codes, if◌then◌else◌}

-- A path is printed with a dot before each name but the first, and an index in brackets.
pub data Part : Type 0 where
  name : Str → Part
  index : ℕ → Part

-- A message, or one with the value that it is about.
pub data Message : Type 0 where
  text : Str → Message
  about : Str → Str → Message

pub record Issue : Type 0 where
  pub path : List Part
  pub message : Message

-- `errf(path, message)` under a test.
abbrev pub issue_if : Bool → List Part → Message → List Issue
issue_if b path message = if b then record { path = path; message = message } ∷ [] else []

abbrev pub required : Message
required = text (codes "required")

abbrev pub not_negative : Message
not_negative = text (codes "must be >= 0")
