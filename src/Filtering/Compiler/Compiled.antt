-- ===== src/Filtering/Compiler/Compiled.antt =====
-- What the conditions of a whole query select: the containers of accepted values, put together.
use mathlib.Core.Logic.Iff
use api_template.Base.{
  String, Bool, true, false, not, ◌&&◌, Option, none, List, [], ◌∷◌, ◌≡◌, refl, ap, ◌∙◌, ◌↔◌, arith,
  All, all, filter, if◌then◌else◌,
}
use api_template.Kernel.Errors.{Outcome, returned}
use api_template.Kernel.Outcomes.{each}
use api_template.Filtering.Specs.{
  FilterLookup, eq, gt, lt, gte, lte, is_in, range, search, json, FilterSpec,
}
use api_template.Filtering.Validator.{accepted, validate}
use api_template.Filtering.Validator.Verdicts.{validate-Accepts}
use api_template.Filtering.Compiler.Classes.{
  Container, Columns, CompilerClass, listed_text, resolve, called,
}
use api_template.Filtering.Compiler.{
  generic, generic_for, is_absent, known_scope, compile_one, compile,
}
use api_template.Filtering.Compiler.Rows.{
  Rows, Asks, Shaped, Coerced, Constrains, Selecting, generic_selects, accepted-Shaped,
  under_lookup,
}

all_step :
    (a b : Bool) {P Q : Type 0} → ((a ≡ true) ↔ P) → ((b ≡ true) ↔ Q) → ((a && b) ≡ true) ↔ (P × Q)
all_step a b p q = (λ h. (p.0 (ground arith), q.0 (ground arith)), λ h. rw (p.1 h.0) (q.1 h.1))

module _ {Condition Row : Type 0} (sql : Columns Condition) (rows : Rows sql Row) where
  open rows use {selects}

  -- Conditions that select together just the rows that the containers ask for.
  abbrev pub Together : Outcome (List Condition) → List Container → Type 0
  Together r cs =
      (ks : List Condition) × (r ≡ returned ks)
      × ((row : Row)
          → (all (λ k. selects k row) ks ≡ true)
            ↔ All (λ c. Constrains sql rows (is_absent c) c row) cs)

  add_one :
      (f : Container → Outcome Condition) (c : Container) (cs live : List Container) (b : Bool)
      → is_absent c ≡ b
      → (b ≡ false → Selecting sql rows (f c) c.field (Asks c.lookup c.value))
      → Together (each f live) cs
      → Together (each f (if not b then c ∷ live else live)) (c ∷ cs)
  add_one f c cs live true e one (ks, r, sel) =
      (ks, r, λ row. (λ h. (rw e tt, (sel row).0 h), λ h. (sel row).1 h.1))
  add_one f c cs live false e one (ks, r, sel) =
      let (k, q, here) = one refl in
      (
        k ∷ ks,
        rw (q, r) refl,
        λ row.
            Iff.trans (all_step (selects k row) (all (λ x. selects x row) ks) (here row) (sel row))
              (
                λ h. (rw e (h.0), h.1),
                λ h. (let g : Constrains sql rows false c row = rw e at (h.0) in g, h.1),
              ),
      )

module _ {Condition Meta Row : Type 0} (sql : Columns Condition) (rows : Rows sql Row) where
  open rows use {selects}

  -- A container of an accepted value, with a column of its field's name and no handler.
  abbrev pub Plain : CompilerClass Condition Meta → Option String → Container → Type 0
  Plain cls scope c =
      ((spec : FilterSpec) × (spec.lookup ≡ c.lookup) × (validate spec c.value ≡ accepted))
      × Coerced c.lookup c.value
      × (listed_text c.field cls.columns ≡ true)
      × (resolve cls c scope ≡ returned none)

  generic_for_lem :
      (cls : CompilerClass Condition Meta) (lookup : FilterLookup) (c : Container)
      → Shaped lookup c.value
      → listed_text c.field cls.columns ≡ true
      → generic_for sql cls lookup c ≡ generic sql lookup c.field c.value
  unfolding generic_for
  generic_for_lem cls json c h e = elim h [ ]
  generic_for_lem cls eq c h e = rw e refl
  generic_for_lem cls gt c h e = elim h [ ]
  generic_for_lem cls gte c h e = elim h [ ]
  generic_for_lem cls lt c h e = elim h [ ]
  generic_for_lem cls lte c h e = elim h [ ]
  generic_for_lem cls search c h e = elim h [ ]
  generic_for_lem cls is_in c h e = rw e refl
  generic_for_lem cls range c h e = rw e refl

  one_selects :
      (cls : CompilerClass Condition Meta) (meta : Option Meta) (scope : Option String)
      (c : Container)
      → Plain cls scope c
      → is_absent c ≡ false
      → Selecting sql rows (compile_one sql cls meta scope c) c.field (Asks c.lookup c.value)
  unfolding compile_one is_absent
  one_selects cls meta scope c ((spec, same_lookup, ok), coerced, column, unhandled) here =
      let accepts =
        under_lookup spec.lookup c.lookup spec c.value same_lookup
          ((validate-Accepts spec c.value).0 ok).1 in
      let shaped = accepted-Shaped c.lookup spec c.value accepts coerced here in
      let found = generic_selects sql rows c.lookup c.field c.value shaped in
      (
        found.0,
        ap (λ r. called r c meta (generic_for sql cls c.lookup c)) unhandled
            ∙ generic_for_lem cls c.lookup c shaped column
            ∙ found.1,
        found.2,
      )

  each_selects :
      (cls : CompilerClass Condition Meta) (meta : Option Meta) (scope : Option String)
      (cs : List Container)
      → All (Plain cls scope) cs
      → Together sql rows
          (each (compile_one sql cls meta scope) (filter (λ c. not (is_absent c)) cs))
          cs
  each_selects cls meta scope [] h = ([], refl, λ row. (λ t. tt, λ t. refl))
  each_selects cls meta scope (c ∷ cs) h =
      add_one sql rows (compile_one sql cls meta scope) c cs (filter (λ x. not (is_absent x)) cs)
        (is_absent c) refl (one_selects cls meta scope c h.0) (each_selects cls meta scope cs h.1)

  -- Containers of accepted values, each with a column of its field's name, no handler, and an
  -- equation, a range or a collection to ask for, are compiled without an exception, and the
  -- conditions select together just the rows that each container asks for: that hold the value,
  -- lie between the ends that are given, both included, or hold one of the values; a container
  -- that is absent, or an empty collection, asks for nothing.
  pub compile-selects :
      (cls : CompilerClass Condition Meta) (meta : Option Meta) (scope : Option String)
      (cs : List Container)
      → known_scope cls.scopes scope ≡ true
      → All (Plain cls scope) cs
      → (ks : List Condition) × (compile sql cls meta scope cs ≡ returned ks)
        × ((row : Row)
            → (all (λ k. selects k row) ks ≡ true)
              ↔ All (λ c. Constrains sql rows (is_absent c) c row) cs)
  unfolding compile
  compile-selects cls meta scope cs known plain = rw known (each_selects cls meta scope cs plain)
