-- ===== src/Registry/Reviewed.antt =====
-- What the registry of core/registry/src/openroad_platform_registry/registry.py lets run.
use chip_evolve.Base.{
  ◌≡◌, refl, Bool, true, false, ◌&&◌, ◌||◌, not, Option, none, some, List, [], ◌∷◌, ◌++◌, String,
  str_eq_iff, opt_str_eq, arith, Bool-cases, inl, inr, All, All-append, select,
}
use chip_evolve.Contracts.Plugin.{PluginManifest, is_blank_text}
use chip_evolve.Registry.Records.{
  Admission, RegisteredPlugin, Answer, granted, refused, ◌>>=◌, ◌>>◌, ensure, is_admitted,
  is_executable_license, validate_admission, AdmissionPayload, entry, status_of, admission_record,
  admission_of,
}
use chip_evolve.Base.{◌⊎◌, subst}
use chip_evolve.Registry.Records.{not_admitted, lacks_capability, lacks_arch}
use chip_evolve.Registry.Loading.{
  load_manifest, Content, absent, unreadable, holds, Checkout, Admissions, unknown_admission,
  load_admission, same_revision, load_plugin, register, register_all, from_directory,
}
use chip_evolve.Registry.Lookup.{is_match, the_match, lacks, resolve}

-- The platform holds a record of the plugin that admits it, with a licence that may run and a pinned
-- commit, which the plugin does not contradict.
pub record IsReviewed (files : String → Content AdmissionPayload) (p : RegisteredPlugin)
    : Type 0 where
  pub payload : AdmissionPayload
  pub on_record : files p.manifest.plugin_id ≡ holds payload
  pub admitted : status_of payload ≡ "admitted"
  pub license : is_executable_license (entry "license_review" payload) ≡ true
  pub pinned : is_blank_text (entry "approved_commit" payload) ≡ false
  pub revision :
      is_blank_text p.provenance.source_commit
        || opt_str_eq (entry "approved_commit" payload) p.provenance.source_commit
      ≡ true

-- A plugin that is admitted is reviewed.
abbrev pub Answers : Admissions → RegisteredPlugin → Type 0
Answers admissions p =
    is_admitted p.admission ≡ true
    → (files : String → Content AdmissionPayload) × (admissions ≡ some files) × IsReviewed files p

abbrev Loaded : Admissions → Checkout → RegisteredPlugin → Type 0
Loaded admissions c p =
    (m : PluginManifest) × (load_admission m.plugin_id admissions ≡ granted p.admission)
    × (p.manifest.plugin_id ≡ m.plugin_id)
    × (same_revision p.admission p.provenance ≡ true)

load_manifest-Loaded :
    (admissions : Admissions) (c : Checkout) (m : PluginManifest) (p : RegisteredPlugin)
    → load_manifest admissions c m ≡ granted p
    → Loaded admissions c p
unfolding load_manifest
load_manifest-Loaded admissions c m p h = (m, ground arith, ground arith, ground arith)

Content-cases :
    {P : Type 0} (content : Content P)
    → (content ≡ absent) ⊎ (content ≡ unreadable) ⊎ ((x : P) × (content ≡ holds x))
Content-cases absent = inl refl
Content-cases unreadable = inr (inl refl)
Content-cases (holds x) = inr (inr (x, refl))

load_plugin-Loaded :
    (admissions : Admissions) (c : Checkout) (p : RegisteredPlugin)
    → load_plugin admissions c ≡ granted p
    → Loaded admissions c p
unfolding load_plugin
load_plugin-Loaded admissions c p h = elim (Content-cases c.manifest) [
  | inl e ↦ absurd (ground arith)
  | inr more ↦ elim more [
    | inl e ↦ absurd (ground arith)
    | inr (m, e) ↦ load_manifest-Loaded admissions c m p (ground arith)
  ]
]

validated-admission :
    (a : Admission)
    → validate_admission a ≡ granted tt
    → is_admitted a ≡ true
    → (is_executable_license a.license_review ≡ true) × (is_blank_text a.approved_commit ≡ false)
unfolding validate_admission
validated-admission a valid admitted = (ground arith, ground arith)

admission_of-record :
    (id : String) (payload : AdmissionPayload) (a : Admission)
    → admission_of id payload ≡ granted a
    → (validate_admission (admission_record id payload) ≡ granted tt)
      × (a ≡ admission_record id payload)
unfolding admission_of
admission_of-record id payload a h = (ground arith, ground arith)

loaded-admitted :
    (id : String) (admissions : Admissions) (a : Admission)
    → load_admission id admissions ≡ granted a
    → is_admitted a ≡ true
    → (files : String → Content AdmissionPayload) × (payload : AdmissionPayload) × (admissions
        ≡ some files)
      × (files id ≡ holds payload)
      × (validate_admission (admission_record id payload) ≡ granted tt)
      × (a ≡ admission_record id payload)
unfolding load_admission
loaded-admitted id none a h admitted = absurd (
    let same : a ≡ unknown_admission id "no admissions directory was configured" = ground arith in
    let bad : is_admitted (unknown_admission id "") ≡ true = rw same at admitted in
    ground (arith, bad))
loaded-admitted id (some files) a h admitted = elim (Content-cases (files id)) [
  | inl e ↦ absurd (
      let same : a ≡ unknown_admission id "no admission record" = ground arith in
      let bad = rw same at admitted in ground (arith, bad))
  | inr more ↦ elim more [
    | inl e ↦ absurd (
        let same : a ≡ unknown_admission id "admission record is unreadable" = ground arith in
        let bad = rw same at admitted in ground (arith, bad))
    | inr (payload, e) ↦
        let (valid, same) = admission_of-record id payload a (ground arith) in
        (files, payload, refl, e, valid, same)
  ]
]

Loaded-Answers :
    (admissions : Admissions) (c : Checkout) (p : RegisteredPlugin)
    → Loaded admissions c p
    → Answers admissions p
unfolding same_revision
Loaded-Answers admissions c p (m, loaded, same_id, revision) admitted =
    let (files, payload, configured, on_record, valid, made) =
      loaded-admitted m.plugin_id admissions p.admission loaded admitted in
    let is_here : is_admitted (admission_record m.plugin_id payload) ≡ true =
      subst (λ (a : Admission). is_admitted a ≡ true) made admitted in
    let (license, pinned) =
      validated-admission (admission_record m.plugin_id payload) valid is_here in
    let agreed = subst (λ (a : Admission). same_revision a p.provenance ≡ true) made revision in
    (
      files,
      configured,
      record {
        payload = payload;
        on_record = rw same_id on_record;
        admitted = (str_eq_iff (status_of payload) "admitted").0 is_here;
        license = license;
        pinned = pinned;
        revision = ground (arith, agreed);
      },
    )

register-All :
    (P : RegisteredPlugin → Type 0) (p : RegisteredPlugin) (plugins more : List RegisteredPlugin)
    → register p plugins ≡ granted more
    → P p
    → All P plugins
    → All P more
unfolding register
register-All P p plugins more h here rest =
    let made : more ≡ plugins ++ p ∷ [] = ground arith in
    rw made (All-append P plugins (p ∷ []) rest (here, tt))

pub >>=-granted {ℓ κ} :
    {A : Type ℓ} {B : Type κ} (m : Answer A) (f : A → Answer B) {b : B}
    → (m >>= f) ≡ granted b
    → (a : A) × (m ≡ granted a) × (f a ≡ granted b)
>>=-granted (granted a) f h = (a, refl, h)
>>=-granted (refused e) f h = absurd cc

register_all-Answers :
    (admissions : Admissions) (cs : List Checkout) (plugins found : List RegisteredPlugin)
    → register_all admissions cs plugins ≡ granted found
    → All (Answers admissions) plugins
    → All (Answers admissions) found
unfolding register_all
register_all-Answers admissions [] plugins found h all =
    let same : plugins ≡ found = ground arith in rw (← same) all
register_all-Answers admissions (c ∷ cs) plugins found h all =
    let (p, loaded, rest) =
      >>=-granted (load_plugin admissions c)
        (λ q. register q plugins >>= register_all admissions cs) h in
    let (more, registered, last) =
      >>=-granted (register p plugins) (register_all admissions cs) rest in
    register_all-Answers admissions cs more found last (
      register-All (Answers admissions) p plugins more registered
        (Loaded-Answers admissions c p (load_plugin-Loaded admissions c p loaded)) all)

All-select {ℓ κ} :
    {A : Type ℓ} (P : A → Type κ) (q : A → Bool) (xs : List A) → All P xs → All P (select q xs)
unfolding select
All-select P q [] h = h
All-select P q (x ∷ xs) h = elim (Bool-cases (q x)) [
  | inl hit ↦ rw hit (h.0, All-select P q xs h.1)
  | inr miss ↦ rw miss (All-select P q xs h.1)
]

the_match-All {κ} :
    (P : RegisteredPlugin → Type κ) (ps : List RegisteredPlugin) (p : RegisteredPlugin)
    → the_match ps ≡ granted p
    → All P ps
    → P p
the_match-All P [] p h all = absurd cc
the_match-All P (q ∷ []) p h all = let same : q ≡ p = ground arith in rw (← same) all.0
the_match-All P (q ∷ r ∷ rest) p h all = absurd cc

-- A manifest that resolve returns to a caller that requires admission, from the plugins below any root,
-- is that of a plugin whose admission record the platform holds: the record says admitted, its licence
-- may run, it pins a commit, and the plugin declares no other commit.
pub only_admitted_resolves :
    (admissions : Admissions) (root : Option (List Checkout)) (plugins : List RegisteredPlugin)
    (plugin_id : String) (version capability arch : Option String) (m : PluginManifest)
    → from_directory root admissions ≡ granted plugins
    → resolve plugin_id version capability arch true plugins ≡ granted m
    → (p : RegisteredPlugin) × (p.manifest ≡ m)
      × (files : String → Content AdmissionPayload) × (admissions ≡ some files)
      × IsReviewed files p
unfolding from_directory resolve
only_admitted_resolves admissions none plugins id version capability arch m found h =
    absurd (ground arith)
only_admitted_resolves admissions (some cs) plugins id version capability arch m found h =
    let all = register_all-Answers admissions cs [] plugins found tt in
    let matches = select (is_match id version) plugins in
    let (p, one, rest) =
      >>=-granted (the_match matches)
        (λ q.
          ensure (not (true && not (is_admitted q.admission))) not_admitted
          >> (ensure (not (lacks capability q.manifest.capabilities)) lacks_capability
              >> (ensure (not (lacks arch q.manifest.supported_arch)) lacks_arch
                  >> granted q.manifest)))
        h in
    let admitted : is_admitted p.admission ≡ true = ground arith in
    let same : p.manifest ≡ m = ground arith in
    let (files, configured, reviewed) =
      the_match-All (Answers admissions) matches p one
        (All-select (Answers admissions) (is_match id version) plugins all) admitted in
    (p, same, files, configured, reviewed)
