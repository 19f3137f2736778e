-- ===== src/DnsCache/Bounds.antt =====
-- The keys of the list and of the map of the cache, and how many there are.
use quic_diver.Base.{
  ℕ, zero, suc, ◌≤◌, ◌<◌, ◌≡◌, ◌≢◌, refl, sym, ap, ◌∙◌, inl, inr, ◌↔◌, true, Option, none, some,
  ltb, List, [], ◌∷◌, In, Str, Str-discrete, arith, if-cases, length, Bool-cases, ltb→le, ltb→lt,
  lt→ltb, update, subst, if_pos, if_neg,
}
use quic_diver.DnsCache.{
  Entry, Cache, remove_key, remove_locked, move_to_front, back, remove_back, evict, put_found,
}
use quic_diver.DnsCache.Keys.{
  IsUnique, length-remove_key, In-remove_key, remove_key-In, remove_key_absent, remove_key-IsUnique,
}

-- Every element has its entry, every entry its element, and no key stands in the list twice.
pub record IsLinked (c : Cache) : Type 0 where
  pub entry : (k : Str) → In k c.ll → c.m k ≢ none
  pub element : (k : Str) → c.m k ≢ none → In k c.ll
  pub unique : IsUnique c.ll

pub remove_locked-IsLinked : (c : Cache) (k : Str) → IsLinked c → IsLinked (remove_locked c k)
unfolding remove_locked
remove_locked-IsLinked c k h = record {
  entry = λ j i e. elim (Str-discrete j k) [
    | yes p ↦ remove_key_absent k c.ll h.unique (subst (λ x. In x (remove_key k c.ll)) p i)
    | no n ↦ h.entry j (In-remove_key j k c.ll i) (sym (if_neg (Str-discrete j k) n _ _) ∙ e)
  ];
  element = λ j e. elim (Str-discrete j k) [
    | yes p ↦ absurd (e (if_pos (Str-discrete j k) p _ _))
    | no n ↦ remove_key-In j k c.ll n (h.element j (λ f. e (if_neg (Str-discrete j k) n _ _ ∙ f)))
  ];
  unique = remove_key-IsUnique k c.ll h.unique;
}

-- Writing the entry of a key that stands at the front of the others.
pub pushed-IsLinked :
    (c : Cache) (k : Str) (e : Entry) (rest : List Str)
    → ¬ In k rest
    → IsUnique rest
    → ((j : Str) → ¬ (j ≡ k) → (In j rest ↔ In j c.ll))
    → IsLinked c
    → IsLinked (record c { ll = k ∷ rest; m = update Str-discrete c.m k e })
pushed-IsLinked c k e rest out u same h = record {
  entry = λ j i f. elim (Str-discrete j k) [
    | yes p ↦ ground (arith, sym (if_pos (Str-discrete j k) p (some e) (c.m j)) ∙ f)
    | no n ↦ elim i [
      | inl p ↦ n p
      | inr g ↦ h.entry j ((same j n).0 g) (sym (if_neg (Str-discrete j k) n _ _) ∙ f)
    ]
  ];
  element = λ j f. elim (Str-discrete j k) [
    | yes p ↦ inl p
    | no n ↦ inr ((same j n).1 (h.element j (λ g. f (if_neg (Str-discrete j k) n _ _ ∙ g))))
  ];
  unique = (out, u);
}

-- A valid cache is linked, and holds at most `max` entries.
pub record IsValid (c : Cache) : Type 0 where
  pub linked : IsLinked c
  pub bound : length c.ll ≤ c.max

-- The last of a list is one of it, and stands behind the first if there are two.
pub back-In : (x y : Str) (xs : List Str) → (z : Str) × (back (x ∷ y ∷ xs) ≡ some z) × In z (y ∷ xs)
unfolding back
back-In x y [] = (y, refl, inl refl)
back-In x y (w ∷ xs) = let (z, e, i) = back-In y w xs in (z, e, inr i)

pub evict-none : (f : ℕ) (c : Cache) → length c.ll ≤ c.max → evict f c ≡ c
unfolding evict
evict-none zero c h = refl
evict-none (suc f) c h =
    if-cases (λ d. d ≡ c) (ltb c.max (length c.ll)) _ c
      (λ l. absurd (omega (arith, h, ltb→lt c.max (length c.ll) l))) (λ l. refl)

evict-some :
    (f : ℕ) (c : Cache)
    → ltb c.max (length c.ll) ≡ true
    → evict (suc f) c ≡ evict f (remove_back c (back c.ll))
unfolding evict
evict-some f c l =
    if-cases (λ d. d ≡ evict f (remove_back c (back c.ll))) (ltb c.max (length c.ll)) _ c
      (λ t. refl) (λ t. ground (arith, l, t))

-- A list that is one too long loses its last key, and the loop ends.
pub evict-one :
    (f : ℕ) (c : Cache) (k x : Str) (xs : List Str)
    → c.ll ≡ k ∷ x ∷ xs
    → length c.ll ≡ suc c.max
    → (z : Str) × In z (x ∷ xs) × (evict (suc (suc f)) c ≡ remove_locked c z)
unfolding remove_back remove_locked
evict-one f c k x xs e l =
    let (z, last, i) = back-In k x xs in
    let fits = length-remove_key z c.ll (subst (In z) (sym e) (inr i)) in
    (
      z,
      i,
      evict-some (suc f) c (lt→ltb c.max (length c.ll) (omega (arith, l)))
          ∙ ap (λ o. evict (suc f) (remove_back c o)) (ap back e ∙ last)
          ∙ evict-none (suc f) (remove_locked c z) (omega (arith, l, fits)),
    )

-- What `Put` makes of a valid cache.
abbrev pub Puts : Cache → Str → Entry → Cache → Type 0
Puts c k e d = IsValid d × (d.m k ≡ some e) × (d.max ≡ c.max)

put_full :
    (c d : Cache) (k z : Str) (e : Entry)
    → IsLinked d
    → ¬ (k ≡ z)
    → In z d.ll
    → d.m k ≡ some e
    → d.max ≡ c.max
    → length d.ll ≡ suc d.max
    → Puts c k e (remove_locked d z)
unfolding remove_locked
put_full c d k z e linked apart i at same l = (
  record {
    linked = remove_locked-IsLinked d z linked;
    bound = omega (arith, length-remove_key z d.ll i, l);
  },
  if_neg (Str-discrete k z) apart _ _ ∙ at,
  same,
)

abbrev pushed : Cache → Str → Entry → Cache
pushed c k e = record c { ll = k ∷ c.ll; m = update Str-discrete c.m k e }

put_room :
    (c d : Cache) (f : ℕ) (k : Str) (e : Entry)
    → IsLinked d
    → d.m k ≡ some e
    → d.max ≡ c.max
    → length d.ll ≤ d.max
    → Puts c k e (evict f d)
put_room c d f k e linked at same l =
    subst (Puts c k e) (sym (evict-none f d l)) (record { linked = linked; bound = l }, at, same)

put_over :
    (c d : Cache) (f : ℕ) (k : Str) (e : Entry) (ll : List Str)
    → IsLinked d
    → ¬ In k ll
    → 0 < d.max
    → d.m k ≡ some e
    → d.max ≡ c.max
    → d.ll ≡ k ∷ ll
    → length ll ≡ d.max
    → f ≡ suc (length ll)
    → Puts c k e (evict f d)
put_over c d f k e [] linked out pos at same is l size = absurd (omega (arith, pos, l))
put_over c d f k e (x ∷ xs) linked out pos at same is l size =
    let (z, i, done) = evict-one (length xs) d k x xs is (ap length is ∙ ap suc l) in
    subst (Puts c k e) (sym (ap (λ n. evict n d) size ∙ done)) (
      put_full c d k z e linked (λ p. out (subst (λ y. In y (x ∷ xs)) (sym p) i))
        (subst (In z) (sym is) (inr i)) at same (ap length is ∙ ap suc l))

put_new :
    (c : Cache) (k : Str) (e : Entry)
    → IsValid c
    → 0 < c.max
    → c.m k ≡ none
    → Puts c k e (evict (suc (length c.ll)) (pushed c k e))
put_new c k e h pos new =
    let out : ¬ In k c.ll = λ i. h.linked.entry k i new in
    let linked =
      pushed-IsLinked c k e c.ll out h.linked.unique (λ j n. (λ i. i, λ i. i)) h.linked in
    let at : (pushed c k e).m k ≡ some e = if_pos (Str-discrete k k) refl _ _ in
    elim (Bool-cases (ltb (length c.ll) c.max)) [
      | inl l ↦
          put_room c (pushed c k e) (suc (length c.ll)) k e linked at refl
            (ltb→lt (length c.ll) c.max l)
      | inr l ↦
          put_over c (pushed c k e) (suc (length c.ll)) k e c.ll linked out pos at refl refl
            (omega (arith, h.bound, ltb→le (length c.ll) c.max l)) refl
    ]

put_old :
    (c : Cache) (k : Str) (e : Entry)
    → IsValid c
    → In k c.ll
    → Puts c k e (move_to_front (record c { m = update Str-discrete c.m k e }) k)
unfolding move_to_front
put_old c k e h i = (
  record {
    linked =
        pushed-IsLinked c k e (remove_key k c.ll) (remove_key_absent k c.ll h.linked.unique)
          (remove_key-IsUnique k c.ll h.linked.unique)
          (λ j n. (In-remove_key j k c.ll, remove_key-In j k c.ll n)) h.linked;
    bound = omega (arith, length-remove_key k c.ll i, h.bound);
  },
  if_pos (Str-discrete k k) refl _ _,
  refl,
)

pub put_found-Puts :
    (c : Cache) (k : Str) (e : Entry) (found : Option Entry)
    → IsValid c
    → 0 < c.max
    → c.m k ≡ found
    → Puts c k e (put_found c k e found)
unfolding put_found
put_found-Puts c k e none h pos at = put_new c k e h pos at
put_found-Puts c k e (some d) h pos at =
    put_old c k e h (h.linked.element k (λ n. ground (arith, n, at)))
