-- ===== src/Dispatch/Choice.antt =====
-- Which handler a request reaches: the one of its own entry, in any spelling.
use thingino_onvif.Base.{
  ℕ, zero, suc, Bool, true, false, ◌&&◌, ◌||◌, not, List, [], ◌∷◌, none, some, ◌==◌, ◌≡◌, refl,
  arith, Bytes, String, codes, Bool-cases, inl, inr, get_elem?,
}
use thingino_onvif.Dispatch.Table.{
  Condition, always, condition_adv_fault_if_set, condition_adv_enable_media2, MethodEntry,
  onvif_dispatch_table,
}
use thingino_onvif.Dispatch.{
  Advanced, is_met, is_named, is_entry_for, find_entry, call, unsupported_method,
  dispatch_onvif_method,
}
use thingino_onvif.Text.Query.{equal_ignoring_case}

-- Two entries have the same names.
abbrev same_names : MethodEntry → MethodEntry → Bool
same_names e f = is_entry_for (codes f.service) (codes f.method) e

unfoldable occurs : MethodEntry → List MethodEntry → Bool
unfolding is_named
occurs e [] = false
occurs e (f ∷ es) = same_names e f || occurs e es

unfoldable distinct : List MethodEntry → Bool
unfolding occurs
distinct [] = true
distinct (e ∷ es) = not (occurs e es) && distinct es

table-distinct : distinct onvif_dispatch_table ≡ true
unfolding distinct onvif_dispatch_table
table-distinct = refl

-- Two names that one text spells spell each other.
equal_ignoring_case_join :
    (a b t : Bytes)
    → equal_ignoring_case a t ≡ true
    → equal_ignoring_case b t ≡ true
    → equal_ignoring_case a b ≡ true
unfolding equal_ignoring_case
equal_ignoring_case_join [] [] t h k = refl
equal_ignoring_case_join [] (y ∷ b) [] h k = cc
equal_ignoring_case_join [] (y ∷ b) (z ∷ t) h k = cc
equal_ignoring_case_join (x ∷ a) [] [] h k = cc
equal_ignoring_case_join (x ∷ a) [] (z ∷ t) h k = cc
equal_ignoring_case_join (x ∷ a) (y ∷ b) [] h k = cc
equal_ignoring_case_join (x ∷ a) (y ∷ b) (z ∷ t) h k =
    ground (arith, equal_ignoring_case_join a b t)

same_names_join :
    (service method : Bytes) (e f : MethodEntry)
    → is_entry_for service method e ≡ true
    → is_entry_for service method f ≡ true
    → same_names e f ≡ true
unfolding is_named
same_names_join service method e f h k = ground (
  arith,
  equal_ignoring_case_join (codes e.service) (codes f.service) service,
  equal_ignoring_case_join (codes e.method) (codes f.method) method,
)

occurs_at :
    (service method : Bytes) (e f : MethodEntry) (es : List MethodEntry) (n : ℕ)
    → is_entry_for service method e ≡ true
    → is_entry_for service method f ≡ true
    → get_elem? es n ≡ some f
    → occurs e es ≡ true
unfolding occurs
occurs_at service method e f [] n h k g = cc
occurs_at service method e f (x ∷ es) zero h k g =
    let same : x ≡ f = ground arith in rw same (rw (same_names_join service method e f h k) refl)
occurs_at service method e f (x ∷ es) (suc n) h k g =
    let rest = occurs_at service method e f es n h k g in ground arith

find_entry_at :
    (adv : Advanced) (service method : Bytes) (e : MethodEntry) (es : List MethodEntry) (n : ℕ)
    → distinct es ≡ true
    → is_entry_for service method e ≡ true
    → is_met adv e.condition ≡ true
    → get_elem? es n ≡ some e
    → find_entry adv service method es ≡ some e
unfolding find_entry distinct
find_entry_at adv service method e [] n d h m g = cc
find_entry_at adv service method e (x ∷ es) zero d h m g =
    let same : x ≡ e = ground arith in rw (same, h, m) refl
find_entry_at adv service method e (x ∷ es) (suc n) d h m g =
    elim (Bool-cases (is_entry_for service method x)) [
      | inl same ↦ absurd (cc (rw (occurs_at service method x e es n same h g) at d))
      | inr other ↦ rw other (find_entry_at adv service method e es n (ground arith) h m g)
    ]

-- Every entry of the dispatch table is reached: a request that names its service and its method, in
-- any mix of capital and small letters, runs the handler of that entry, if its condition is met.
pub dispatch_onvif_method_entry :
    (adv : Advanced) (service method : Bytes) (n : ℕ) (e : MethodEntry)
    → get_elem? onvif_dispatch_table n ≡ some e
    → is_entry_for service method e ≡ true
    → is_met adv e.condition ≡ true
    → dispatch_onvif_method adv (some service) (some method) ≡ some (call e.handler)
unfolding dispatch_onvif_method onvif_dispatch_table
dispatch_onvif_method_entry adv service method n e g h m =
    rw (find_entry_at adv service method e onvif_dispatch_table n table-distinct h m g) refl

abbrev is_always : Condition → Bool
is_always always = true
is_always condition_adv_fault_if_set = false
is_always condition_adv_enable_media2 = false

-- Every entry of a service has a condition.
unfoldable conditional : String → List MethodEntry → Bool
unfolding is_named
conditional name [] = true
conditional name (e ∷ es) =
    not (is_named e.service (codes name) && is_always e.condition) && conditional name es

is_met_off :
    (adv : Advanced) (c : Condition)
    → (adv.adv_fault_if_set == 1) ≡ false
    → (adv.adv_enable_media2 == 1) ≡ false
    → is_always c ≡ false
    → is_met adv c ≡ false
unfolding is_met
is_met_off adv always s m h = cc
is_met_off adv condition_adv_fault_if_set s m h = s
is_met_off adv condition_adv_enable_media2 s m h = m

find_entry_off :
    (adv : Advanced) (name : String) (service method : Bytes) (es : List MethodEntry)
    → (adv.adv_fault_if_set == 1) ≡ false
    → (adv.adv_enable_media2 == 1) ≡ false
    → is_named name service ≡ true
    → conditional name es ≡ true
    → find_entry adv service method es ≡ none
unfolding find_entry conditional is_named
find_entry_off adv name service method [] s m h c = refl
find_entry_off adv name service method (e ∷ es) s m h c =
    let join = equal_ignoring_case_join (codes e.service) (codes name) service in
    let off = is_met_off adv e.condition s m in
    let rest = find_entry_off adv name service method es s m h in ground (arith, join, off, rest)

media2-conditional : conditional "media2_service" onvif_dispatch_table ≡ true
unfolding conditional onvif_dispatch_table
media2-conditional = refl

-- While the settings `adv_enable_media2` and `adv_fault_if_set` are off, no request for the second
-- media service reaches a handler, whatever its method is.
pub dispatch_onvif_method_media2_off :
    (adv : Advanced) (service method : Bytes)
    → (adv.adv_fault_if_set == 1) ≡ false
    → (adv.adv_enable_media2 == 1) ≡ false
    → is_named "media2_service" service ≡ true
    → dispatch_onvif_method adv (some service) (some method)
      ≡ some (unsupported_method adv service method)
unfolding dispatch_onvif_method onvif_dispatch_table
dispatch_onvif_method_media2_off adv service method s m h =
    rw
      (find_entry_off adv "media2_service" service method onvif_dispatch_table s m h
        media2-conditional)
      refl
