-- ===== src/Policy/Frame.antt =====
-- What an installed pack rests on in the cache, and which changes of the cache keep it.
use git_slop.Base.{
  ◌≡◌, inl, inr, refl, true, not, ◌||◌, Option, none, some, [], ◌∷◌, arith, Text, text_eq, BTreeMap,
  lookup, insert, remove, ok, Result-cases, Bool-cases,
}
use git_slop.Policy.Model.{ResolvedPack}
use git_slop.Policy.Store.{
  CacheIndex, Entry, World, valid_content_digest, valid_digests, read_index, loaded_from,
  from_cache, verified, load_installed, installed,
}

abbrev pub IsReadable : World → Type 0
IsReadable w = (w.index.schema_version ≡ 1) × (valid_digests w.index.packs ≡ true)

pub read_index-ok : (w : World) → IsReadable w → read_index w ≡ ok w.index
unfolding read_index
read_index-ok w (schema, valid) = rw (schema, valid) refl

pub read_index-IsReadable :
    (w : World) (index : CacheIndex) → read_index w ≡ ok index → IsReadable w × (index ≡ w.index)
unfolding read_index
read_index-IsReadable w index h = ground arith

-- The parts of an installed pack: the index is readable and has its digest, and the entry of the
-- digest loads as a pack with the id and the digest.
abbrev pub IsInstalled : Text → World → ResolvedPack → Type 0
IsInstalled id w p =
    IsReadable w
    × ((digest : Text) × (entry : Entry) × (q : ResolvedPack) × (lookup id w.index.packs
          ≡ some digest)
        × (lookup digest w.contents ≡ some entry)
        × (entry.loaded ≡ some q)
        × (text_eq q.manifest.id id ≡ true)
        × (text_eq q.content_digest digest ≡ true)
        × (p ≡ from_cache digest q))

pub IsInstalled-installed :
    (id : Text) (w : World) (p : ResolvedPack) → IsInstalled id w p → installed id w ≡ ok p
unfolding installed
IsInstalled-installed id w p (readable, (digest, entry, q, known, held, loads, same, exact, made)) =
    rw (read_index-ok w readable, known, held, loads, same, exact, made) refl

entry_of :
    (o : Option Entry) (q : ResolvedPack)
    → loaded_from o ≡ some q
    → (entry : Entry) × (o ≡ some entry) × (entry.loaded ≡ some q)
entry_of none q h = cc
entry_of (some entry) q h = (entry, refl, h)

verified-ok :
    (id digest : Text) (o : Option ResolvedPack) (p : ResolvedPack)
    → verified id digest o ≡ ok p
    → (q : ResolvedPack) × (o ≡ some q)
      × (text_eq q.manifest.id id ≡ true)
      × (text_eq q.content_digest digest ≡ true)
      × (p ≡ from_cache digest q)
unfolding verified
verified-ok id digest none p h = cc
verified-ok id digest (some q) p h =
    elim (Bool-cases (not (text_eq q.manifest.id id) || not (text_eq q.content_digest digest))) [
      | inl mismatch ↦ cc (rw mismatch at h)
      | inr match ↦
          let kept : ok (from_cache digest q) ≡ ok p = rw match at h in
          (q, refl, ground arith, ground arith, cc)
    ]

load_installed-IsInstalled :
    (id : Text) (w : World) (p : ResolvedPack) (o : Option Text)
    → IsReadable w
    → lookup id w.index.packs ≡ o
    → load_installed id w o ≡ ok p
    → IsInstalled id w p
unfolding load_installed
load_installed-IsInstalled id w p none readable e h = cc
load_installed-IsInstalled id w p (some digest) readable e h =
    let (q, loads, same, exact, made) =
      verified-ok id digest (loaded_from (lookup digest w.contents)) p h in
    let (entry, held, loaded) = entry_of (lookup digest w.contents) q loads in
    (readable, (digest, entry, q, e, held, loaded, same, exact, made))

pub installed-IsInstalled :
    (id : Text) (w : World) (p : ResolvedPack) → installed id w ≡ ok p → IsInstalled id w p
unfolding installed
installed-IsInstalled id w p h = elim (Result-cases (read_index w)) [
  | inr (e, refused) ↦ cc (rw refused at h)
  | inl (index, read) ↦
      let (readable, same_index) = read_index-IsReadable w index read in
      let found : load_installed id w (lookup id w.index.packs) ≡ ok p =
        rw (read_index-ok w readable) at h in
      load_installed-IsInstalled id w p (lookup id w.index.packs) readable refl found
]

-- Another cache with the same digest for the id, and the entry of that digest untouched.
pub IsInstalled-kept :
    (id : Text) (w w' : World) (p : ResolvedPack)
    → IsReadable w'
    → ((digest : Text) (entry : Entry)
        → lookup id w.index.packs ≡ some digest
        → text_eq p.content_digest digest ≡ true
        → lookup digest w.contents ≡ some entry
        → (lookup id w'.index.packs ≡ some digest) × (lookup digest w'.contents ≡ some entry))
    → IsInstalled id w p
    → IsInstalled id w' p
IsInstalled-kept id w w' p readable keep
      (_, (digest, entry, q, known, held, loads, same, exact, made)) =
    let own : text_eq p.content_digest digest ≡ true = rw made exact in
    let (known', held') = keep digest entry known own held in
    (readable, (digest, entry, q, known', held', loads, same, exact, made))

pub valid_digests-insert :
    (id digest : Text) (packs : BTreeMap Text)
    → valid_content_digest digest ≡ true
    → valid_digests packs ≡ true
    → valid_digests (insert id digest packs) ≡ true
unfolding valid_digests insert
valid_digests-insert id digest [] d h = rw d refl
valid_digests-insert id digest ((j, v) ∷ packs) d h =
    ground (arith, valid_digests-insert id digest packs)

pub valid_digests-remove :
    (id : Text) (packs : BTreeMap Text)
    → valid_digests packs ≡ true
    → valid_digests (remove id packs) ≡ true
unfolding valid_digests remove
valid_digests-remove id [] h = refl
valid_digests-remove id ((j, v) ∷ packs) h = ground (arith, valid_digests-remove id packs)
