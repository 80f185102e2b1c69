-- ===== src/Main/Loading/Order.antt =====
-- The zones of a configuration may stand in any order.
use mathlib.Core.List.{Memᴰ, Permᴰ}
use mathlib.Core.Path.{subst}
use lrmdns.Prelude.{◌≡◌, refl, sym, ◌∙◌, false, some, List, [], ◌∷◌, arith, ◌⊎◌, inl, inr}
use lrmdns.Prelude.Result.{ok, bind-eq-ok}
use lrmdns.Dns.Name.{DnsApi, name_key}
use lrmdns.Dns.Op.{Message}
use lrmdns.Zone.{Zone}
use lrmdns.Zone.Store.{ZoneStore, add_zone}
use lrmdns.Zone.Store
use lrmdns.Zone.Store.Order.{SameStore, HasNoTies}
use lrmdns.Zone.Store.Publish.{SameStore-refl, SameStore-trans, add_zone-Same, add_zone-swap}
use lrmdns.Zone.File.Rdata.{Readers}
use lrmdns.Zone.File.Load.{parse_zone_file}
use lrmdns.Zone.File.Built.{parse_zone_file-IsWellFormed}
use lrmdns.Config.{ZoneConfig}
use lrmdns.Protocol.{process_query}
use lrmdns.Protocol.Order.{process_query-order}
use lrmdns.Main.{Files, load_into, load_zones}
use lrmdns.Main.Loading.{IsLoad-HasValidZones}

-- an element of the permuted list is one of the list
mem-Perm {ℓ} : {A : Type ℓ} {a : A} {xs ys : List A} → Permᴰ xs ys → Memᴰ a ys → Memᴰ a xs
mem-Perm Permᴰ.nil m = m
mem-Perm (Permᴰ.cons q r) (Memᴰ.head e) = Memᴰ.head (e ∙ sym q)
mem-Perm (Permᴰ.cons q r) (Memᴰ.tail m) = Memᴰ.tail (mem-Perm r m)
mem-Perm (Permᴰ.swap q q') (Memᴰ.head e) = Memᴰ.tail (Memᴰ.head (e ∙ sym q'))
mem-Perm (Permᴰ.swap q q') (Memᴰ.tail (Memᴰ.head e)) = Memᴰ.head (e ∙ sym q)
mem-Perm (Permᴰ.swap q q') (Memᴰ.tail (Memᴰ.tail m)) = Memᴰ.tail (Memᴰ.tail m)
mem-Perm (Permᴰ.trans r r') m = mem-Perm r (mem-Perm r' m)

-- The names of the two zones are different domain names.
abbrev pub DifferInName : {Name : Type 0} → DnsApi Name → ZoneConfig → ZoneConfig → Type 0
DifferInName {Name} api c d =
    (n m : Name)
    → api.from_str c.name ≡ some n
    → api.from_str d.name ≡ some m
    → api.key.eq n m ≡ false

-- No domain name has two different entries.
abbrev pub NamesOnce : {Name : Type 0} → DnsApi Name → List ZoneConfig → Type 0
NamesOnce api cs = (c d : ZoneConfig) → Memᴰ c cs → Memᴰ d cs → (c ≡ d) ⊎ DifferInName api c d

module _ {Name : Type 0} ⦃api : DnsApi Name⦄ where
  module _ (readers : Readers Name) (files : Files) where
    -- the entries load from the store, into one with the same zones as another
    LoadsLike : List ZoneConfig → ZoneStore Name → ZoneStore Name → Type 0
    LoadsLike cs s t = (u : ZoneStore Name) × (load_into readers files cs s ≡ ok u) × SameStore t u

    loaded-zone :
        (c : ZoneConfig) (cs : List ZoneConfig) (s : ZoneStore Name) {t : ZoneStore Name}
        → load_into readers files (c ∷ cs) s ≡ ok t
        → (z : Zone Name) × (parse_zone_file readers (files c.file) c.name ≡ ok z)
          × (load_into readers files cs (add_zone z s) ≡ ok t)
    unfolding load_into
    loaded-zone c cs s e = bind-eq-ok (parse_zone_file readers (files c.file) c.name) _ e

    LoadsLike-cons :
        (c : ZoneConfig) (cs : List ZoneConfig) (s t : ZoneStore Name) {z : Zone Name}
        → parse_zone_file readers (files c.file) c.name ≡ ok z
        → LoadsLike cs (add_zone z s) t
        → LoadsLike (c ∷ cs) s t
    unfolding LoadsLike load_into
    LoadsLike-cons c cs s t p (u, e, same) = (u, rw p e, same)

    -- stores with the same zones
    load_into-Same :
        (cs : List ZoneConfig) (s s' : ZoneStore Name) {t : ZoneStore Name}
        → load_into readers files cs s ≡ ok t
        → SameStore s s'
        → LoadsLike cs s' t
    unfolding LoadsLike load_into
    load_into-Same [] s s' {t} e h =
        let same : s ≡ t = ground arith in (s', refl, subst (λ u. SameStore u s') same h)
    load_into-Same (c ∷ cs) s s' {t} e h =
        let (z, p, e') = loaded-zone c cs s e in
        LoadsLike-cons c cs s' t p
          (load_into-Same cs (add_zone z s) (add_zone z s') e' (add_zone-Same z s s' h))

    -- two entries in the other order
    two-swapped :
        (c d : ZoneConfig) (s : ZoneStore Name) {z y : Zone Name}
        → (d ≡ c) ⊎ DifferInName api d c
        → parse_zone_file readers (files c.file) c.name ≡ ok z
        → parse_zone_file readers (files d.file) d.name ≡ ok y
        → SameStore (add_zone y (add_zone z s)) (add_zone z (add_zone y s))
    two-swapped c d s {z} {y} (inl q) p p' =
        let again : parse_zone_file readers (files c.file) c.name ≡ ok y =
          subst (λ x. parse_zone_file readers (files x.file) x.name ≡ ok y) q p' in
        let same : z ≡ y = ground arith in rw same (SameStore-refl (add_zone y (add_zone y s)))
    two-swapped c d s {z} {y} (inr differ) p p' = add_zone-swap y z s (
        differ y.origin z.origin (parse_zone_file-IsWellFormed readers (files d.file) d.name p').0
          (parse_zone_file-IsWellFormed readers (files c.file) c.name p).0)

    LoadsLike-swap :
        (c d : ZoneConfig) (cs : List ZoneConfig) (s s' : ZoneStore Name) {t : ZoneStore Name}
        → (d ≡ c) ⊎ DifferInName api d c
        → load_into readers files (c ∷ d ∷ cs) s ≡ ok t
        → SameStore s s'
        → LoadsLike (d ∷ c ∷ cs) s' t
    LoadsLike-swap c d cs s s' {t} apart e h =
        let (z, p, e₁) = loaded-zone c (d ∷ cs) s e in
        let (y, p', e₂) = loaded-zone d cs (add_zone z s) e₁ in
        let moved =
          SameStore-trans (add_zone y (add_zone z s)) (add_zone z (add_zone y s)) _
            (two-swapped c d s apart p p')
            (add_zone-Same z (add_zone y s) (add_zone y s') (add_zone-Same y s s' h)) in
        LoadsLike-cons d (c ∷ cs) s' t p' (
          LoadsLike-cons c cs (add_zone y s') t p
            (load_into-Same cs (add_zone y (add_zone z s)) (add_zone z (add_zone y s')) e₂ moved))

    LoadsLike-trans :
        (cs ds : List ZoneConfig) (s t : ZoneStore Name)
        → LoadsLike cs s t
        → ((u : ZoneStore Name) → load_into readers files cs s ≡ ok u → LoadsLike ds s u)
        → LoadsLike ds s t
    unfolding LoadsLike
    LoadsLike-trans cs ds s t (u, e, h) k =
        let (v, e', h') = k u e in (v, e', SameStore-trans t u v h h')

    load_into-Perm :
        {cs ds : List ZoneConfig} (s s' : ZoneStore Name) {t : ZoneStore Name}
        → Permᴰ cs ds
        → NamesOnce api cs
        → load_into readers files cs s ≡ ok t
        → SameStore s s'
        → LoadsLike ds s' t
    load_into-Perm s s' Permᴰ.nil once e h = load_into-Same [] s s' e h
    load_into-Perm s s' {t} (Permᴰ.cons {a = c} {b = d} {l₁ = cs} {l₂ = ds} q r) once e h =
        let (z, p, e') = loaded-zone c cs s e in
        let rest =
          load_into-Perm (add_zone z s) (add_zone z s') r
            (λ x y m n. once x y (Memᴰ.tail m) (Memᴰ.tail n)) e' (add_zone-Same z s s' h) in
        subst (λ x. LoadsLike (x ∷ ds) s' t) q (LoadsLike-cons c ds s' t p rest)
    load_into-Perm s s' {t} (Permᴰ.swap {a = c} {b = d} {l = cs} q q') once e h =
        rw (← q, ← q')
          (LoadsLike-swap c d cs s s' (once d c (Memᴰ.tail (Memᴰ.head refl)) (Memᴰ.head refl)) e h)
    load_into-Perm s s' {t} (Permᴰ.trans {l₂ = bs} {l₃ = ds} r r') once e h =
        LoadsLike-trans bs ds s' t (load_into-Perm s s' r once e h) (λ u e'.
          load_into-Perm s' s' r' (λ x y m n. once x y (mem-Perm r m) (mem-Perm r n)) e'
            (SameStore-refl s'))

  -- The order of the zones in the configuration does not matter: where they load, and no domain name
  -- has two different entries, they load in any other order too, and the response to every query is
  -- the same, if of the origins above one name no two have as many labels.
  pub load_zones-order :
      (readers : Readers Name) (files : Files) {cs ds : List ZoneConfig} {s : ZoneStore Name}
      (q : Message Name)
      → Permᴰ cs ds
      → NamesOnce api cs
      → load_zones readers files cs ≡ ok s
      → HasNoTies s
      → (u : ZoneStore Name) × (load_zones readers files ds ≡ ok u)
        × (process_query s q ≡ process_query u q)
  unfolding load_zones LoadsLike
  load_zones-order readers files {cs} {ds} {s} q r once e no_ties =
      let (u, e', same) =
        load_into-Perm readers files Store.new Store.new r once e (SameStore-refl Store.new) in
      (
        u,
        e',
        process_query-order s u q no_ties (IsLoad-HasValidZones readers cs s (files, e))
            (IsLoad-HasValidZones readers ds u (files, e')) same,
      )
