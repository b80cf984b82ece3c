-- ===== src/Filtering/Compiler/Scopes.antt =====
-- The scopes of a compiler: a field declared scope-dependent is compiled by a handler of the scope.
use api_template.Base.{
  String, text_append, str_eq, str_eq_iff, true, false, not, Option, none, some, List, [], ◌∷◌,
  ◌++◌, ◌≡◌, refl, sym, ap, ◌∙◌, Bool-cases, Option-cases, All, filter, inl, inr, ◌⊎◌,
}
use api_template.Kernel.Errors.{type_error, runtime_error, Outcome, returned, raised}
use api_template.Filtering.Compiler.Classes.{
  Container, Columns, Handler, CompilerClass, lookup_text, listed_text, handler_named, scoped_name,
  covers, missing_scopes, missing, checked, is_empty_list, init_subclass, resolve_unscoped,
  scoped_or_else, resolve, call_handler, called,
}
use api_template.Filtering.Specs.{FilterLookup}
use api_template.Filtering.Compiler.{compile_one, generic_for}

-- `compile_<scope>__<field>__<lookup>`
abbrev pub scoped_text : (scope field : String) → FilterLookup → String
scoped_text scope field lookup = text_append "compile_" (
    text_append scope
      (text_append "__" (text_append field (text_append "__" (lookup_text lookup)))))

empty_append : {A : Type 0} (xs ys : List A) → xs ++ ys ≡ [] → (xs ≡ []) × (ys ≡ [])
empty_append [] ys h = (refl, h)
empty_append (x ∷ xs) ys h = absurd (cc)

checked-none : (xs : List String) → checked xs ≡ returned tt → xs ≡ []
checked-none [] h = refl
checked-none (x ∷ xs) h = absurd (cc)

listed_somewhere :
    (field : String) (fields : List String)
    → listed_text field fields ≡ true
    → is_empty_list fields ≡ true
    → ⊥
listed_somewhere field [] found none_there = cc
listed_somewhere field (f ∷ fields) found none_there = cc

module _ {Condition Meta : Type 0} where
  -- The first handler of a class that has a name.
  abbrev pub FirstNamed : String → Handler Condition Meta → List (Handler Condition Meta) → Type 0
  FirstNamed name h hs =
      (before : List (Handler Condition Meta)) × (after : List (Handler Condition Meta)) × (hs
        ≡ before ++ h ∷ after)
      × All (λ g. str_eq g.name name ≡ false) before
      × (h.name ≡ name)

  handler_named-first :
      (name : String) (hs : List (Handler Condition Meta)) (h : Handler Condition Meta)
      → handler_named name hs ≡ some h
      → FirstNamed name h hs
  unfolding handler_named
  handler_named-first name [] h e = absurd (cc)
  handler_named-first name (k ∷ hs) h e = elim (Bool-cases (str_eq k.name name)) [
    | inl same ↦
        let g : some k ≡ some h = rw same at e in
        let p : k ≡ h = cc in
        (
          [],
          hs,
          ap (λ x. x ∷ hs) p,
          tt,
          sym (ap (λ (x : Handler Condition Meta). x.name) p) ∙ (str_eq_iff k.name name).0 same,
        )
    | inr other ↦
        let (before, after, here, others, named) = handler_named-first name hs h (rw other at e) in
        (k ∷ before, after, ap (λ xs. k ∷ xs) here, (other, others), named)
  ]

  scoped_only :
      (cls : CompilerClass Condition Meta) (c : Container) (scope : Option String)
      (m : Option (Handler Condition Meta))
      → listed_text c.field cls.scoped_fields ≡ true
      → resolve cls c scope ≡ returned m
      → (s : String) × (h : Handler Condition Meta) × (scope ≡ some s)
        × (m ≡ some h)
        × FirstNamed (scoped_name s c) h cls.handlers
  unfolding resolve resolve_unscoped
  scoped_only cls c none m scoped e =
      absurd (let g : raised runtime_error ≡ returned m = rw scoped at e in cc)
  scoped_only cls c (some s) m scoped e =
      elim (Option-cases (handler_named (scoped_name s c) cls.handlers)) [
        | inl gone ↦ absurd (
            let g : raised runtime_error ≡ returned m = rw (scoped, gone, scoped_or_else) at e in
            cc)
        | inr (h, found) ↦
            let g : returned (some h) ≡ returned m = rw (found, scoped_or_else) at e in
            (s, h, refl, cc, handler_named-first (scoped_name s c) cls.handlers h found)
      ]

  called_by :
      (r : Outcome (Option (Handler Condition Meta))) (c : Container) (meta : Option Meta)
      (rest : Outcome Condition) (k : Condition)
      → called r c meta rest ≡ returned k
      → (r ≡ returned none)
        ⊎ ((h : Handler Condition Meta) × (r ≡ returned (some h))
            × (call_handler h c meta ≡ returned k))
  called_by (raised e) c meta rest k h = absurd (cc)
  called_by (returned none) c meta rest k h = inl refl
  called_by (returned (some g)) c meta rest k h = inr (g, refl, h)

  covered_of :
      (cls : CompilerClass Condition Meta) (field : String) (scopes : List String)
      → missing_scopes cls field scopes ≡ []
      → All (λ scope. covers cls.handlers scope field ≡ true) scopes
  unfolding missing_scopes
  covered_of cls field [] h = tt
  covered_of cls field (scope ∷ scopes) h = elim (Bool-cases (covers cls.handlers scope field)) [
    | inl yes_covered ↦ (yes_covered, covered_of cls field scopes (rw yes_covered at h))
    | inr no_handler ↦ absurd (
        let g : scope ∷ filter (λ s. not (covers cls.handlers s field)) scopes ≡ [] =
          rw no_handler at h in
        cc)
  ]

  none_missing :
      (cls : CompilerClass Condition Meta) (field : String) (fields : List String)
      → missing cls fields ≡ []
      → listed_text field fields ≡ true
      → All (λ scope. covers cls.handlers scope field ≡ true) cls.scopes
  unfolding missing
  none_missing cls field [] h found = absurd (cc)
  none_missing cls field (f ∷ fields) h found =
      let parts = empty_append (missing_scopes cls f cls.scopes) (missing cls fields) h in
      elim (Bool-cases (str_eq field f)) [
        | inl same ↦ rw ((str_eq_iff field f).0 same) (covered_of cls f cls.scopes parts.0)
        | inr other ↦ none_missing cls field fields parts.1 (rw other at found)
      ]

  declared_covers :
      (cls : CompilerClass Condition Meta) (field : String)
      → init_subclass cls ≡ returned tt
      → listed_text field cls.scoped_fields ≡ true
      → All (λ scope. covers cls.handlers scope field ≡ true) cls.scopes
  unfolding init_subclass
  declared_covers cls field h found = elim (Bool-cases (is_empty_list cls.scoped_fields)) [
    | inl no_fields ↦ absurd (listed_somewhere field cls.scoped_fields found no_fields)
    | inr fields ↦ elim (Bool-cases (is_empty_list cls.scopes)) [
      | inl no_scopes ↦
          absurd (let g : raised type_error ≡ returned tt = rw (fields, no_scopes) at h in cc)
      | inr scopes ↦
          none_missing cls field cls.scoped_fields
            (checked-none (missing cls cls.scoped_fields) (rw (fields, scopes) at h)) found
    ]
  ]

  -- In a compiler class that could be declared, a scope-dependent field has a handler for each of
  -- the scopes; and where a container of that field is compiled to a condition, the caller has
  -- given a scope, and the condition is what the first handler of the class that is called
  -- `compile_<scope>__<field>__<lookup>` returns: never the shared handler's or the column's.
  pub compile_one-scoped :
      (sql : Columns Condition) (cls : CompilerClass Condition Meta) (meta : Option Meta)
      (scope : Option String) (c : Container) (k : Condition)
      → init_subclass cls ≡ returned tt
      → listed_text c.field cls.scoped_fields ≡ true
      → compile_one sql cls meta scope c ≡ returned k
      → All (λ s. covers cls.handlers s c.field ≡ true) cls.scopes
        × ((s : String) × (h : Handler Condition Meta) × (scope ≡ some s)
            × FirstNamed (scoped_text s c.field c.lookup) h cls.handlers
            × (call_handler h c meta ≡ returned k))
  unfolding compile_one scoped_name
  compile_one-scoped sql cls meta scope c k declared scoped compiled = (
    declared_covers cls c.field declared scoped,
    elim (called_by (resolve cls c scope) c meta (generic_for sql cls c.lookup c) k compiled) [
      | inl e ↦
          let r = scoped_only cls c scope none scoped e in
          absurd (let g : none ≡ some (r.1) = r.3 in cc)
      | inr (h, e, called_it) ↦
          let r = scoped_only cls c scope (some h) scoped e in
          let p : h ≡ r.1 = let q : some h ≡ some (r.1) = r.3 in cc in
          (r.0, h, r.2, rw p (r.4), called_it)
    ],
  )
