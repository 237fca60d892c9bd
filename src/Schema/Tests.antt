-- ===== src/Schema/Tests.antt =====
-- Runs of the schema table.
use trouper.Prelude.{◌≡◌, refl, ◌≢◌, ◌↔◌, false, none, some, [], ◌∷◌, arith}
use trouper.Schema.{
  event, SchemaDef, register, TypedTable, register_typed, parse, claim_schema_type,
}
use trouper.Schema.Ids.{has_at, parse-as_str}
use trouper.Schema.Table.{register_all, register_typed-one_type}

abbrev stock : SchemaDef
stock = record { name = "Stock"; kind = event; fields = []; description = none }

abbrev order : SchemaDef
order = record { name = "Order"; kind = event; fields = []; description = some "an order" }

abbrev nothing_typed : TypedTable
nothing_typed = record { table = []; owners = λ s. none }

parse-as_str_example :
    ((parse "Stock@2" ≡ some "Stock@2") ↔ (has_at "Stock@2" ≡ false))
    × (parse "Stock" ≡ parse "Stock@2")
unfolding parse
parse-as_str_example = parse-as_str "Stock@2"

parses_old_ids : parse "Stock@2" ≡ some "Stock"
unfolding parse
parses_old_ids = refl

stock_registers : (register_typed stock 7 nothing_typed).1 ≢ none
unfolding register_typed claim_schema_type register
stock_registers = ground arith

register_typed-one_type_example :
    (register_typed stock 8
      (register_all ((order, 9) ∷ []) (register_typed stock 7 nothing_typed).0)).1
    ≡ none
register_typed-one_type_example =
    register_typed-one_type stock 7 nothing_typed ((order, 9) ∷ []) stock 8 stock_registers refl
