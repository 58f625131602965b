-- ===== src/Commands.antt =====
-- The programs of cmd: how each reads its flags and what it starts. The children are named for the
-- directories of cmd.
pub mod ReceiveAdapter
pub mod Controller
pub mod Samples
use csr.Base.{String, ◌<>◌, ◌≡◌, Option, some, List, [], ◌∷◌}

-- `flag.Parse`: the flags with their defaults, and the arguments, give every flag's value, or the
-- process exits on arguments that are no flags' values.
abbrev pub FlagParser : Type 0
FlagParser = List (String × String) → List String → Option (String → String)

-- The documented form `--name=value`, for the one flag `name` and the one argument.
abbrev pub ReadsFlag : FlagParser → String → Type 0
ReadsFlag parse name =
    (default value : String)
    → (values : String → String) × (parse ((name, default) ∷ [])
          (("--" <> (name <> ("=" <> value))) ∷ [])
        ≡ some values)
      × (values name ≡ value)
