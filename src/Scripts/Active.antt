-- ===== src/Scripts/Active.antt =====
-- Which scripts are active after a promotion.
use reconbanker.Common.{
  ℕ, suc, ◌+◌, ◌≤◌, ◌≡◌, refl, sym, ap, subst, ◌∙◌, inl, inr, Bool, true, false, ◌&&◌, List, [],
  ◌∷◌, map, Option, none, some, String, arith, ◌=s◌, =s_iff, if◌then◌else◌, any, count, ok,
  >>=-eq-ok, Bool-cases,
}
use reconbanker.Events.{DomainEvent}
use reconbanker.Scripts.{
  BankScript, deprecated, FlowType, login, extract_transactions, verify_payment, Scope,
  is_active_status, is_active_in, in_scope, scope_of, same_or_null, same_flow, find_by_id,
  deprecate_active, merge_row, save, promote, check_owner, promote_script,
}

unfoldable scope_eq : Scope → Scope → Bool
scope_eq j k =
    (j.bank =s k.bank)
    && same_flow j.flow_type k.flow_type
    && same_or_null j.account_id k.account_id
    && same_or_null j.user_id k.user_id

same_or_null-eq : (a b : Option String) → same_or_null a b ≡ true → a ≡ b
same_or_null-eq none none h = refl
same_or_null-eq none (some b) h = cc
same_or_null-eq (some a) none h = cc
same_or_null-eq (some a) (some b) h = ap some ((=s_iff a b).0 h)

same_flow-eq : (a b : FlowType) → same_flow a b ≡ true → a ≡ b
same_flow-eq login login h = refl
same_flow-eq extract_transactions extract_transactions h = refl
same_flow-eq verify_payment verify_payment h = refl
same_flow-eq login extract_transactions h = cc
same_flow-eq login verify_payment h = cc
same_flow-eq extract_transactions login h = cc
same_flow-eq extract_transactions verify_payment h = cc
same_flow-eq verify_payment login h = cc
same_flow-eq verify_payment extract_transactions h = cc

scope_eq-eq : (j k : Scope) → scope_eq j k ≡ true → j ≡ k
unfolding scope_eq
scope_eq-eq j k h = ground (
  arith,
  =s_iff j.bank k.bank,
  same_flow-eq j.flow_type k.flow_type,
  same_or_null-eq j.account_id k.account_id,
  same_or_null-eq j.user_id k.user_id,
)

in_scope_lem : (k : Scope) (x : BankScript) → in_scope k x ≡ scope_eq (scope_of x) k
unfolding in_scope scope_eq
in_scope_lem k x = refl

in_scope-of : (k j : Scope) (x : BankScript) → in_scope k x ≡ true → in_scope j x ≡ scope_eq k j
in_scope-of k j x h =
    in_scope_lem j x
    ∙ ap (λ i. scope_eq i j) (scope_eq-eq (scope_of x) k (sym (in_scope_lem k x) ∙ h))

in_scope-same : (k j : Scope) (x : BankScript) → scope_eq k j ≡ true → in_scope j x ≡ in_scope k x
in_scope-same k j x h = ap (λ i. in_scope i x) (sym (scope_eq-eq k j h))

is_active_in_lem :
    (k : Scope) (x : BankScript) → is_active_in k x ≡ (is_active_status x.status && in_scope k x)
unfolding is_active_in
is_active_in_lem k x = refl

-- Deprecating the active scripts of a scope leaves it none, and every other scope its own.
deprecated-count :
    (k j : Scope) (rows : List BankScript)
    → count (is_active_in j) (deprecate_active k rows)
      ≡ (if scope_eq k j then 0 else count (is_active_in j) rows)
unfolding deprecate_active
deprecated-count k j [] = ground arith
deprecated-count k j (x ∷ rows) = elim (Bool-cases (is_active_in k x)) [
  | inl e ↦ rw e (
      ground (
        arith,
        deprecated-count k j rows,
        is_active_in_lem j (record x { status = deprecated }),
        is_active_in_lem j x,
        is_active_in_lem k x,
        in_scope-of k j x,
      ))
  | inr e ↦ rw e (
      ground (
        arith,
        deprecated-count k j rows,
        is_active_in_lem j x,
        is_active_in_lem k x,
        in_scope-same k j x,
      ))
]

deprecated-ids :
    (id : String) (k : Scope) (rows : List BankScript)
    → count (λ x. x.id =s id) (deprecate_active k rows) ≡ count (λ x. x.id =s id) rows
unfolding deprecate_active
deprecated-ids id k [] = refl
deprecated-ids id k (x ∷ rows) = ground (arith, deprecated-ids id k rows)

deprecated-find :
    (id : String) (k : Scope) (rows : List BankScript) (s : BankScript)
    → find_by_id id rows ≡ some s
    → is_active_status s.status ≡ false
    → find_by_id id (deprecate_active k rows) ≡ some s
unfolding deprecate_active find_by_id
deprecated-find id k [] s h a = cc
deprecated-find id k (x ∷ rows) s h a = elim (Bool-cases (x.id =s id)) [
  | inl e ↦
      let q : x ≡ s = ground (arith, e, h) in
      let n : is_active_in k x ≡ false =
        ground (arith, is_active_in_lem k x, ap (λ y. y.status) q, a) in
      rw (n, e) (ap some q)
  | inr e ↦ elim (Bool-cases (is_active_in k x)) [
    | inl g ↦ rw (g, e) (deprecated-find id k rows s (ground (arith, e, h)) a)
    | inr g ↦ rw (g, e) (deprecated-find id k rows s (ground (arith, e, h)) a)
  ]
]

both : (a b c : Bool) → a ≡ true → b ≡ c → (a && b) ≡ c
both a b c h e = ground (arith, h, e)

suc_if : (b : Bool) (n : ℕ) → (if b then suc n else n) ≡ (if b then 1 else 0) + n
suc_if b n = ground arith

merge-none :
    (p : BankScript → Bool) (s : BankScript) (rows : List BankScript)
    → count (λ x. x.id =s s.id) rows ≡ 0
    → count p (map (merge_row s) rows) ≡ count p rows
merge-none p s [] h = refl
merge-none p s (x ∷ rows) h = ground (arith, merge-none p s rows)

-- Making one script active adds one to its scope alone.
merge-count :
    (j : Scope) (s x : BankScript) (rows : List BankScript)
    → find_by_id s.id rows ≡ some x
    → is_active_status x.status ≡ false
    → is_active_status s.status ≡ true
    → scope_of x ≡ scope_of s
    → count (λ y. y.id =s s.id) rows ≤ 1
    → (count (is_active_in j) (map (merge_row s) rows)
        ≡ (if in_scope j s then 1 else 0) + count (is_active_in j) rows)
      × (any (λ y. y.id =s s.id) rows ≡ true)
unfolding find_by_id
merge-count j s x [] f a b e c = cc
merge-count j s x (y ∷ rows) f a b e c = elim (Bool-cases (y.id =s s.id)) [
  | inl h ↦
      let q : y ≡ x = ground (arith, f, h) in
      let y' : BankScript = record y { status = s.status; code_snapshot = s.code_snapshot } in
      let n : in_scope j y' ≡ in_scope j s =
        in_scope_lem j y' ∙ ap (λ k. scope_eq k j) (ap scope_of q ∙ e) ∙ sym (in_scope_lem j s) in
      let w : is_active_in j y' ≡ in_scope j s = is_active_in_lem j y' ∙ both _ _ _ b n in
      let d : is_active_in j y ≡ false =
        is_active_in_lem j y
        ∙ ap (λ t. t && in_scope j y) (ap (λ z. is_active_status z.status) q ∙ a) in
      rw (h, w, d)
        (
          ap (λ t. if in_scope j s then suc t else t)
                (merge-none (is_active_in j) s rows (ground (arith, c, h)))
              ∙ suc_if (in_scope j s) _,
          refl,
        )
  | inr h ↦ ground (arith, h, merge-count j s x rows)
]

save-merge :
    (s : BankScript) (rows rows' : List BankScript)
    → any (λ y. y.id =s s.id) rows ≡ true
    → save s rows ≡ ok rows'
    → rows' ≡ map (merge_row s) rows
unfolding save
save-merge s rows rows' a h = ground (arith, a, h)

promote-ok :
    (s : BankScript) (p : BankScript × List DomainEvent)
    → promote s ≡ ok p
    → (is_active_status s.status ≡ false)
      × (is_active_status p.0.status ≡ true)
      × (p.0.id ≡ s.id)
      × (scope_of p.0 ≡ scope_of s)
unfolding promote
promote-ok s p h = ground arith

owner-ok :
    (caller : String) (o : Option BankScript) (s : BankScript)
    → check_owner caller o ≡ ok s
    → o ≡ some s
unfolding check_owner
owner-ok caller none s h = cc
owner-ok caller (some x) s h = ground (arith, =s_iff caller caller)

find_by_id-id :
    (id : String) (rows : List BankScript) (s : BankScript)
    → find_by_id id rows ≡ some s
    → s.id ≡ id
unfolding find_by_id
find_by_id-id id [] s h = cc
find_by_id-id id (x ∷ rows) s h = ground (arith, =s_iff x.id id, find_by_id-id id rows s)

settled :
    (id : String) (rows r : List BankScript) (s : BankScript) (p : BankScript × List DomainEvent)
    (j : Scope)
    → count (λ x. x.id =s id) rows ≤ 1
    → find_by_id id rows ≡ some s
    → promote s ≡ ok p
    → save p.0 (deprecate_active (scope_of s) rows) ≡ ok r
    → count (is_active_in j) r ≡ (if in_scope j s then 1 else count (is_active_in j) rows)
settled id rows r s p j u f m v =
    let k = scope_of s in
    let (a, b, i, e) = promote-ok s p m in
    let i' : p.0.id ≡ id = i ∙ find_by_id-id id rows s f in
    let f' = deprecated-find id k rows s f a in
    let u' : count (λ x. x.id =s id) (deprecate_active k rows) ≤ 1 =
      rw (deprecated-ids id k rows) u in
    let (c, g) =
      merge-count j p.0 s (deprecate_active k rows)
        (subst (λ z. find_by_id z (deprecate_active k rows) ≡ some s) (sym i') f') a b (sym e)
        (subst (λ z. count (λ x. x.id =s z) (deprecate_active k rows) ≤ 1) (sym i') u') in
    let n : in_scope j p.0 ≡ scope_eq k j = in_scope_lem j p.0 ∙ ap (λ z. scope_eq z j) e in
    ap (λ l. count (is_active_in j) l) (save-merge p.0 _ r g v)
    ∙ c
    ∙ ground (arith, deprecated-count k j rows, n, in_scope_lem j s)

-- A promotion that goes through leaves the scope of the script (its bank, flow, account and user)
-- exactly one active script, and every other scope as many as it had. Ids are unique in the table.
pub promote_script_lem :
    (id caller : String) (rows rows' : List BankScript) (es : List DomainEvent) (s : BankScript)
    (j : Scope)
    → count (λ x. x.id =s id) rows ≤ 1
    → find_by_id id rows ≡ some s
    → promote_script id caller rows ≡ ok (rows', es)
    → count (is_active_in j) rows' ≡ (if in_scope j s then 1 else count (is_active_in j) rows)
unfolding promote_script
promote_script_lem id caller rows rows' es s j u f h =
    let (o, c, h₁) = >>=-eq-ok (check_owner caller (find_by_id id rows)) _ h in
    let (p, m, h₂) = >>=-eq-ok (promote o) _ h₁ in
    let (r, v, h₃) = >>=-eq-ok (save p.0 (deprecate_active (scope_of o) rows)) _ h₂ in
    let q : o ≡ s = ground (arith, sym (owner-ok caller (find_by_id id rows) o c) ∙ f) in
    let m' = subst (λ z. promote z ≡ ok p) q m in
    let v' = subst (λ z. save p.0 (deprecate_active (scope_of z) rows) ≡ ok r) q v in
    let same : rows' ≡ r = ground (arith, h₃) in
    ap (λ l. count (is_active_in j) l) same ∙ settled id rows r s p j u f m' v'
