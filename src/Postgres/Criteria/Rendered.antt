-- ===== src/Postgres/Criteria/Rendered.antt =====
-- About the text that disintegrate-postgres/src/event_store/query.rs writes, as PostgreSQL reads it.
use Prim.Native.String.{◌++◌}
use mathlib.Core.Path.{subst}
use text.Mathlib.TextLemmas.{append_assoc, append-nil}
use disintegrate.Prelude.{
  ◌≡◌, refl, sym, String, Bool, true, ◌&&◌, Option, none, some, List, [], ◌∷◌, any, all, ◌==◌,
  is_empty, arith, Option-cases, inl, inr, if◌then◌else◌,
}
use disintegrate.Prelude.Show.{show}
use disintegrate.Identifier.{Identifier, IdentifierValue}
use disintegrate.Event.{EventId}
use disintegrate.Postgres.Criteria.{
  TypeTest, Group, render_value, render_identifiers, render_tests, render_group, render,
}
use disintegrate.Postgres.Criteria.Rows.{Row, equals, test_holds, group_holds, holds}
use disintegrate.Postgres.Criteria.Text.{
  IsPlain, is_plain_test, is_plain_value, is_column, Level, Reads,
}

abbrev test_text : TypeTest → String
test_text t =
    ("(event_type = '"
      ++ (t.event_type
          ++ ("'"
              ++ ((if is_empty t.identifiers then "" else " AND ")
                  ++ (render_identifiers t.identifiers ++ ")")))))

render_first :
    (t : TypeTest) (ts : List TypeTest)
    → render_tests (t ∷ ts)
      ≡ test_text t ++ ((if is_empty ts then "" else " OR ") ++ render_tests ts)
render_first t ts =
    let z : String = (if is_empty ts then "" else " OR ") ++ render_tests ts in
    let more : String = (if is_empty t.identifiers then "" else " AND ") in
    let ids = render_identifiers t.identifiers in
    rw
      (
        append_assoc "(event_type = '" (t.event_type ++ ("'" ++ (more ++ (ids ++ ")")))) z,
        append_assoc t.event_type ("'" ++ (more ++ (ids ++ ")"))) z,
        append_assoc "'" (more ++ (ids ++ ")")) z,
        append_assoc more (ids ++ ")") z,
        append_assoc ids ")" z,
      )
      refl

test_text_lem :
    (t : TypeTest)
    → "("
        ++ ((("event_type = '" ++ (t.event_type ++ "'"))
              ++ ((if is_empty t.identifiers then "" else " AND ")
                  ++ render_identifiers t.identifiers))
            ++ ")")
      ≡ test_text t
test_text_lem t =
    let more : String = (if is_empty t.identifiers then "" else " AND ") in
    let ids = render_identifiers t.identifiers in
    rw
      (
        append_assoc ("event_type = '" ++ (t.event_type ++ "'")) (more ++ ids) ")",
        append_assoc "event_type = '" (t.event_type ++ "'") ((more ++ ids) ++ ")"),
        append_assoc t.event_type "'" ((more ++ ids) ++ ")"),
        append_assoc more ids ")",
      )
      (sym (append_assoc "(" "event_type = '" (t.event_type ++ ("'" ++ (more ++ (ids ++ ")"))))))

origin_text :
    (n : EventId) (s : String)
    → "(" ++ (("event_id > " ++ show n) ++ s) ≡ "(event_id > " ++ (show n ++ s)
origin_text n s =
    rw (append_assoc "event_id > " (show n) s) (sym (append_assoc "(" "event_id > " (show n ++ s)))

range_text :
    (n : EventId) (s : String)
    → "(" ++ ((("event_id > " ++ show n) ++ (" AND " ++ ("(" ++ (s ++ ")")))) ++ ")")
      ≡ "(event_id > " ++ (show n ++ (" AND (" ++ (s ++ "))")))
range_text n s =
    rw
      (
        append_assoc ("event_id > " ++ show n) (" AND " ++ ("(" ++ (s ++ ")"))) ")",
        append_assoc " AND " ("(" ++ (s ++ ")")) ")",
        append_assoc "(" (s ++ ")") ")",
        append_assoc s ")" ")",
        ← append_assoc " AND " "(" (s ++ "))"),
      )
      (origin_text n (" AND (" ++ (s ++ "))")))

module _ (row : Row) where
  retext :
      {l : Level} (s t : String) (b c : Bool) → s ≡ t → b ≡ c → Reads row l s b → Reads row l t c
  retext {l} s t b c same alike r =
      subst (λ x. Reads row l x c) same (subst (λ x. Reads row l s x) alike r)

  value_reads :
      (k : Identifier) (v : IdentifierValue)
      → is_column k ≡ true
      → is_plain_value v ≡ true
      → Reads row Level.comparison (k ++ (" = " ++ render_value v)) (equals (row.column k) v)
  value_reads k (IdentifierValue.string v) named h = Reads.varchar k v named h
  value_reads k (IdentifierValue.i64 v) named h = Reads.number k v named
  value_reads k (IdentifierValue.uuid v) named h = Reads.uuid k v named h

  identifiers_read :
      (s : String) (b : Bool) (l : List (Identifier × IdentifierValue))
      → Reads row Level.comparison s b
      → all (λ p. is_column p.0 && is_plain_value p.1) l ≡ true
      → Reads row Level.conjunction
          (s ++ ((if is_empty l then "" else " AND ") ++ render_identifiers l))
          (b && all (λ p. equals (row.column p.0) p.1) l)
  identifiers_read s b [] r h =
      retext s (s ++ "") b (b && true) (sym (append-nil s)) (ground arith) (Reads.one _ _ r)
  identifiers_read s b ((k, v) ∷ l) r h =
      let rest =
        identifiers_read (k ++ (" = " ++ render_value v)) (equals (row.column k) v) l
          (value_reads k v (ground (arith, h)) (ground (arith, h))) (ground (arith, h)) in
      let all_of = Reads.and s _ b _ r rest in
      let more : String = (if is_empty l then "" else " AND ") ++ render_identifiers l in
      rw (append_assoc k (" = " ++ render_value v) more, append_assoc " = " (render_value v) more)
        at all_of

  test_reads :
      (t : TypeTest)
      → is_plain_test t ≡ true
      → Reads row Level.comparison (test_text t) (test_holds row t)
  test_reads t h =
      let inner =
        identifiers_read ("event_type = '" ++ (t.event_type ++ "'"))
          (t.event_type == row.event_type) t.identifiers
          (Reads.event_type t.event_type (ground (arith, h))) (ground (arith, h)) in
      let whole = Reads.parenthesized _ _ (Reads.only _ _ inner) in
      retext _ (test_text t) _ (test_holds row t) (test_text_lem t) refl whole

  tests_read :
      (t : TypeTest) (ts : List TypeTest)
      → all is_plain_test (t ∷ ts) ≡ true
      → Reads row Level.condition (render_tests (t ∷ ts)) (any (test_holds row) (t ∷ ts))
  tests_read t [] h =
      retext (test_text t) (render_tests (t ∷ [])) (test_holds row t) _ refl (ground arith)
        (Reads.only _ _ (Reads.one _ _ (test_reads t (ground (arith, h)))))
  tests_read t (u ∷ ts) h =
      let rest = tests_read u ts (ground (arith, h)) in
      let first = Reads.one _ _ (test_reads t (ground (arith, h))) in
      let both = Reads.or _ _ _ _ first rest in
      retext _ _ _ _ (sym (render_first t (u ∷ ts))) refl both

  group_reads :
      (after : Option EventId) (ts : List TypeTest) (b : Bool)
      → all is_plain_test ts ≡ true
      → group_holds row after ts ≡ some b
      → Reads row Level.comparison (render_group after ts) b
  group_reads none [] b h g = absurd (cc g)
  group_reads none (t ∷ ts) b h g =
      retext _ _ _ b refl (ground (arith, g)) (Reads.parenthesized _ _ (tests_read t ts h))
  group_reads (some n) [] b h g =
      retext _ (render_group (some n) []) _ b (origin_text n ")") (ground (arith, g))
        (Reads.parenthesized _ _ (Reads.only _ _ (Reads.one _ _ (Reads.event_id n))))
  group_reads (some n) (t ∷ ts) b h g =
      let tests = tests_read t ts h in
      let both =
        Reads.and _ _ _ _ (Reads.event_id n) (Reads.one _ _ (Reads.parenthesized _ _ tests)) in
      retext _ (render_group (some n) (t ∷ ts)) _ b (range_text n (render_tests (t ∷ ts)))
        (ground (arith, g)) (Reads.parenthesized _ _ (Reads.only _ _ both))

  pub render-Reads :
      (gs : List Group) (b : Bool)
      → IsPlain gs
      → holds row gs ≡ some b
      → Reads row Level.condition (render gs) b
  unfolding holds render
  render-Reads [] b h g = absurd (cc g)
  render-Reads (x ∷ []) b h g =
      retext _ _ b b (sym (append-nil (render_group x.after x.tests))) refl
        (Reads.only _ _ (Reads.one _ _ (group_reads x.after x.tests b (ground (arith, h)) g)))
  render-Reads (x ∷ y ∷ gs) b h g = elim (Option-cases (group_holds row x.after x.tests)) [
    | inl o ↦ absurd (ground (arith, g, o))
    | inr (c, o) ↦ elim (Option-cases (holds row (y ∷ gs))) [
      | inl o' ↦ absurd (ground (arith, g, o, o'))
      | inr (d, o') ↦
          let first = group_reads x.after x.tests c (ground (arith, h)) o in
          let rest = render-Reads (y ∷ gs) d (ground (arith, h)) o' in
          let both = Reads.or _ _ c d (Reads.one _ _ first) rest in
          retext _ (render (x ∷ y ∷ gs)) _ b refl (ground (arith, g, o, o')) both
    ]
  ]
