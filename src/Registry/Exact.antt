-- ===== src/Registry/Exact.antt =====
-- What core/registry/src/openroad_platform_registry/registry.py finds by a name and a version.
use chip_evolve.Base.{
  ◌≡◌, refl, ap, Bool, true, false, not, Option, none, some, List, [], ◌∷◌, ◌++◌, String,
  str_eq_iff, str_eq_refl, arith, Bool-cases, inl, inr, if◌then◌else◌, All, All-append, All-map,
  select, some_row, first,
}
use chip_evolve.Registry.Records.{
  RegisteredPlugin, granted, refused, ◌>>=◌, is_admitted, not_admitted, lacks_capability,
  lacks_arch,
}
use chip_evolve.Registry.Loading.{
  Checkout, Admissions, load_plugin, register, register_all, from_directory, has_identity,
}
use chip_evolve.Registry.Lookup.{lacks, resolve}
use chip_evolve.Registry.Reviewed.{>>=-granted}

abbrev Differs : RegisteredPlugin → RegisteredPlugin → Type 0
Differs p q = has_identity p.manifest.plugin_id p.manifest.plugin_version q ≡ false

-- No two plugins have the same name and version.
abbrev IsDistinct : List RegisteredPlugin → Type 0
IsDistinct [] = Unit
IsDistinct (p ∷ ps) = All (Differs p) ps × IsDistinct ps

Differs-sym : (p q : RegisteredPlugin) → Differs q p → Differs p q
Differs-sym p q h =
    elim (Bool-cases (has_identity p.manifest.plugin_id p.manifest.plugin_version q)) [
      | inr e ↦ e
      | inl e ↦
          let id : q.manifest.plugin_id ≡ p.manifest.plugin_id =
            (str_eq_iff q.manifest.plugin_id p.manifest.plugin_id).0 (ground arith) in
          let version : q.manifest.plugin_version ≡ p.manifest.plugin_version =
            (str_eq_iff q.manifest.plugin_version p.manifest.plugin_version).0 (ground arith) in
          absurd (
            let back : has_identity q.manifest.plugin_id q.manifest.plugin_version p ≡ true =
              rw (id, version)
                (rw (str_eq_refl p.manifest.plugin_id, str_eq_refl p.manifest.plugin_version)
                  refl) in
            ground (arith, back))
    ]

append-IsDistinct :
    (ps : List RegisteredPlugin) (q : RegisteredPlugin)
    → some_row (has_identity q.manifest.plugin_id q.manifest.plugin_version) ps ≡ false
    → IsDistinct ps
    → IsDistinct (ps ++ q ∷ [])
unfolding some_row
append-IsDistinct [] q free h = (tt, tt)
append-IsDistinct (p ∷ ps) q free h = (
  All-append (Differs p) ps (q ∷ []) h.0 (Differs-sym p q (ground arith), tt),
  append-IsDistinct ps q (ground arith) h.1,
)

register-IsDistinct :
    (p : RegisteredPlugin) (plugins more : List RegisteredPlugin)
    → register p plugins ≡ granted more
    → IsDistinct plugins
    → IsDistinct more
unfolding register
register-IsDistinct p plugins more h distinct =
    let made : more ≡ plugins ++ p ∷ [] = ground arith in
    rw made (append-IsDistinct plugins p (ground arith) distinct)

register_all-IsDistinct :
    (admissions : Admissions) (cs : List Checkout) (plugins found : List RegisteredPlugin)
    → register_all admissions cs plugins ≡ granted found
    → IsDistinct plugins
    → IsDistinct found
unfolding register_all
register_all-IsDistinct admissions [] plugins found h d =
    let same : plugins ≡ found = ground arith in rw (← same) d
register_all-IsDistinct admissions (c ∷ cs) plugins found h d =
    let (p, loaded, rest) =
      >>=-granted (load_plugin admissions c)
        (λ q. register q plugins >>= register_all admissions cs) h in
    let (more, registered, last) =
      >>=-granted (register p plugins) (register_all admissions cs) rest in
    register_all-IsDistinct admissions cs more found last
      (register-IsDistinct p plugins more registered d)

select-none {ℓ} :
    {A : Type ℓ} (q : A → Bool) (xs : List A) → All (λ x. q x ≡ false) xs → select q xs ≡ []
unfolding select
select-none q [] h = refl
select-none q (x ∷ xs) h = rw h.0 (select-none q xs h.1)

-- Of plugins that differ, the first with a name and a version is the only one.
select-only :
    (id version : String) (ps : List RegisteredPlugin) (p : RegisteredPlugin)
    → IsDistinct ps
    → first (has_identity id version) ps ≡ some p
    → select (has_identity id version) ps ≡ p ∷ []
unfolding first select
select-only id version [] p d found = absurd (ground arith)
select-only id version (q ∷ ps) p d found = elim (Bool-cases (has_identity id version q)) [
  | inr miss ↦ rw miss (select-only id version ps p d.1 (rw miss at found))
  | inl hit ↦
      let same : q ≡ p = ground arith in
      let is_id : q.manifest.plugin_id ≡ id =
        (str_eq_iff q.manifest.plugin_id id).0 (ground arith) in
      let is_version : q.manifest.plugin_version ≡ version =
        (str_eq_iff q.manifest.plugin_version version).0 (ground arith) in
      let rest : select (has_identity id version) ps ≡ [] =
        select-none (has_identity id version) ps (
          All-map (Differs q) (λ r. has_identity id version r ≡ false) ps
            (λ r e. rw (← is_id, ← is_version) e) d.0) in
      rw hit (rw rest (ap (λ r. r ∷ []) same))
]

-- In the registry of any root, a lookup by a name and a version that are registered answers for that one
-- plugin: with its manifest if it is admitted and offers the capability and the architecture, and otherwise
-- with the refusal that fits.
pub resolve_exact :
    (admissions : Admissions) (root : Option (List Checkout)) (plugins : List RegisteredPlugin)
    (plugin_id version : String) (capability arch : Option String) (p : RegisteredPlugin)
    → from_directory root admissions ≡ granted plugins
    → first (has_identity plugin_id version) plugins ≡ some p
    → resolve plugin_id (some version) capability arch true plugins ≡ (
        if not (is_admitted p.admission)
        then refused not_admitted
        else if lacks capability p.manifest.capabilities
        then refused lacks_capability
        else if lacks arch p.manifest.supported_arch
        then refused lacks_arch
        else granted p.manifest)
unfolding from_directory resolve
resolve_exact admissions none plugins id version capability arch p loaded found =
    absurd (ground arith)
resolve_exact admissions (some cs) plugins id version capability arch p loaded found =
    let only =
      select-only id version plugins p (register_all-IsDistinct admissions cs [] plugins loaded tt)
        found in
    rw only (ground arith)
