-- ===== src/Controls/Transform/Keys.antt =====
-- The keys that `get_phoebus_key` of controls/transform/mod.rs prints, and `Key::parse` of
-- models/phoebus/mod.rs, which reads them.
use alarms_actions_synchroni.Prelude.{
  String, ◌≡◌, ◌≢◌, ◌↔◌, refl, ◌∙◌, ap, some, ok, arith, Option-cases, inl, inr, string_eq, char_eq,
}
use alarms_actions_synchroni.Prelude.Text.{◌++◌, split_once, rsplit_once}
use alarms_actions_synchroni.Prelude.Text.Splitting.{
  Lacks, split_once-inverse, rsplit_once-append, rsplit_once-inverse,
}
use alarms_actions_synchroni.Models.Phoebus.Key.{
  Key, Operation, parse, parse_operation, get_key_prefix,
}
use alarms_actions_synchroni.Controls.Transform.{get_phoebus_key}

-- What a device name must be to survive a key: not empty, and without a slash.
abbrev pub IsDeviceName : String → Type 0
IsDeviceName device = (device ≢ "") × Lacks "/" device

pub split_once-get_phoebus_key :
    (operation : Operation) (display_path device : String)
    → split_once (get_phoebus_key operation display_path device) ":"
      ≡ some (get_key_prefix operation, display_path ++ "/" ++ device)
unfolding get_phoebus_key get_key_prefix split_once char_eq
split_once-get_phoebus_key Operation.command display_path device = refl
split_once-get_phoebus_key Operation.config display_path device = refl
split_once-get_phoebus_key Operation.state display_path device = refl

pub parse_operation-get_key_prefix :
    (operation : Operation) → parse_operation (get_key_prefix operation) ≡ some operation
unfolding parse_operation get_key_prefix string_eq
parse_operation-get_key_prefix Operation.command = refl
parse_operation-get_key_prefix Operation.config = refl
parse_operation-get_key_prefix Operation.state = refl

pub parse_operation-prefix :
    (s : String) (operation : Operation)
    → parse_operation s ≡ some operation
    → s ≡ get_key_prefix operation
unfolding parse_operation get_key_prefix
parse_operation-prefix s operation e = ground arith

-- A value parses to the key that its parts make.
parse-parts :
    (value rest : String) (key : Key)
    → split_once value ":" ≡ some (get_key_prefix key.operation, rest)
    → rsplit_once rest "/" ≡ some (key.display_path, key.device)
    → key.device ≢ ""
    → parse value ≡ ok key
unfolding parse
parse-parts value rest key first last named =
    ground (arith, parse_operation-get_key_prefix key.operation)

-- A key that is printed for a proper device name is parsed back, whatever the operation and the
-- display path.
pub parse-get_phoebus_key :
    (operation : Operation) (display_path device : String)
    → IsDeviceName device
    → parse (get_phoebus_key operation display_path device)
      ≡ ok (record { device = device; display_path = display_path; operation = operation })
parse-get_phoebus_key operation display_path device (named, h) =
    parse-parts _ _ _ (split_once-get_phoebus_key operation display_path device)
      (rsplit_once-append "/" display_path device h) named

-- What a successful parse has found on its way.
parts_of_parse :
    (value : String) (key : Key)
    → parse value ≡ ok key
    → (rest : String) × (split_once value ":" ≡ some (get_key_prefix key.operation, rest))
      × (rsplit_once rest "/" ≡ some (key.display_path, key.device))
      × (key.device ≢ "")
unfolding parse
parts_of_parse value key e = elim (Option-cases (split_once value ":")) [
  | inl missed ↦ ground arith
  | inr ((operation_str, rest), found) ↦ (
    rest,
    ground (arith, parse_operation-prefix operation_str key.operation),
    ground arith,
    ground arith,
  )
]

pub join_parts :
    (value rest : String) (key : Key)
    → split_once value ":" ≡ some (get_key_prefix key.operation, rest)
    → rsplit_once rest "/" ≡ some (key.display_path, key.device)
    → (value ≡ get_phoebus_key key.operation key.display_path key.device) × Lacks "/" key.device
unfolding get_phoebus_key
join_parts value rest key first last =
    let (joined, _) = split_once-inverse ":" value _ _ first in
    let (joined', clean) = rsplit_once-inverse "/" rest _ _ last in
    (joined ∙ ap (λ (r : String). get_key_prefix key.operation ++ ":" ++ r) joined', clean)

-- A text parses to a key exactly when it is the print of that key and the device is not empty and
-- has no slash.
pub parse_iff :
    (value : String) (key : Key)
    → (parse value ≡ ok key) ↔ (
        (value ≡ get_phoebus_key key.operation key.display_path key.device)
        × IsDeviceName key.device)
parse_iff value key = (
  λ e.
      let (rest, first, last, named) = parts_of_parse value key e in
      let (joined, clean) = join_parts value rest key first last in (joined, (named, clean)),
  λ (joined, device).
      rw joined (parse-get_phoebus_key key.operation key.display_path key.device device),
)
