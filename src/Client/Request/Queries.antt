-- ===== src/Client/Request/Queries.antt =====
-- The query of a request of internal/client/client.go.
use tdarr_exporter.Prelude.{
  ◌≡◌, sym, ap, ◌∙◌, List, [], ◌∷◌, ◌++◌, none, arith, ◌==◌, All, if◌then◌else◌,
}
use tdarr_exporter.Prelude.Assoc.{lookup, lookup-insert, HasUniqueKeys}
use tdarr_exporter.GoText.{Text, Text_eq}
use tdarr_exporter.Client.Request.{Values, get_all, add, add_vals, add_map, add_params}
use mathlib.Core.List.{append_assoc, append-nil}

get_all-add :
    (key k : Text) (val : Text) (values : Values)
    → get_all key (add k val values) ≡ get_all key values ++ (if k == key then val ∷ [] else [])
unfolding add
get_all-add key k val values = ground (
  arith,
  lookup-insert k key (get_all k values ++ val ∷ []) values,
  Text_eq.beq_iff k key,
  append-nil (get_all key values),
)

get_all-add_vals :
    (key k : Text) (vals : List Text) (values : Values)
    → get_all key (add_vals k vals values) ≡ get_all key values ++ (if k == key then vals else [])
unfolding add_vals
get_all-add_vals key k [] values = ground (arith, append-nil (get_all key values))
get_all-add_vals key k (val ∷ vals) values = ground (
  arith,
  get_all-add_vals key k vals (add k val values),
  get_all-add key k val values,
  append_assoc (get_all key values) (val ∷ []) vals,
  append-nil (get_all key values),
)

get_all-cons :
    (key k : Text) (vals : List Text) (m : Values)
    → get_all key ((k, vals) ∷ m) ≡ (if k == key then vals else get_all key m)
unfolding lookup
get_all-cons key k vals m = ground (arith, Text_eq.beq_iff k key)

get_all-fresh : (key : Text) (m : Values) → lookup key m ≡ none → get_all key m ≡ []
get_all-fresh key m h = ground (arith, h)

get_all-add_map :
    (key : Text) (m values : Values)
    → HasUniqueKeys m
    → get_all key (add_map m values) ≡ get_all key values ++ get_all key m
unfolding add_map lookup
get_all-add_map key [] values h = sym (append-nil (get_all key values))
get_all-add_map key ((k, vals) ∷ m) values (fresh, h) = ground (
  arith,
  get_all-add_map key m (add_vals k vals values) h,
  get_all-add_vals key k vals values,
  get_all-cons key k vals m,
  get_all-fresh k m fresh,
  Text_eq.beq_iff k key,
  append_assoc (get_all key values) vals (get_all key m),
  append-nil vals,
  append-nil (get_all key values),
)

-- The values of a key in one map after the other.
abbrev pub all_values : Text → List Values → List Text
all_values key [] = []
all_values key (m ∷ ms) = get_all key m ++ all_values key ms

-- The query of a request has, for each key, the values that the client's URL has for it, and behind them
-- those of each map of parameters in turn; the order in which Go ranges over a map does not matter.
pub get_all-add_params :
    (key : Text) (query_params : List Values) (values : Values)
    → All HasUniqueKeys query_params
    → get_all key (add_params query_params values)
      ≡ get_all key values ++ all_values key query_params
unfolding add_params
get_all-add_params key [] values h = sym (append-nil (get_all key values))
get_all-add_params key (m ∷ ms) values (u, h) =
    get_all-add_params key ms (add_map m values) h
    ∙ ap (λ vs. vs ++ all_values key ms) (get_all-add_map key m values u)
    ∙ append_assoc (get_all key values) (get_all key m) (all_values key ms)
