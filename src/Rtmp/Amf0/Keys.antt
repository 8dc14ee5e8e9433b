-- ===== src/Rtmp/Amf0/Keys.antt =====
-- The map that src/server/rtmp/amf0.rs builds of an object's properties.
use text.Mathlib.Text.{◌==◌ as ◌=ˢ◌}
use text.Mathlib.TextEquality.{eq_iff}
use vcp_media_server.Prelude.{◌≡◌, refl, sym, ap, ◌∙◌, String, false, Bool-cases, inl, inr}
use vcp_media_server.Rtmp.Amf0.{Amf0Value, Properties, no_properties, property, insert_property}

-- The key is none of the others.
abbrev pub Apart : String → Properties → Type 0
Apart k no_properties = Unit {0}
Apart k (property j v rest) = ((j =ˢ k) ≡ false) × Apart k rest

-- What the reader of an object makes of its properties: it puts them into a map one by one.
unfoldable pub insert_all : Properties → Properties → Properties
insert_all acc no_properties = acc
insert_all acc (property k v rest) = insert_all (insert_property acc k v) rest

unfoldable pub joined : Properties → Properties → Properties
joined no_properties ps = ps
joined (property k v rest) ps = property k v (joined rest ps)

-- The keys of the second are none of the first.
unfoldable pub Disjoint : Properties → Properties → Type 0
Disjoint acc no_properties = Unit {0}
Disjoint acc (property k v rest) = Apart k acc × Disjoint acc rest

insert_property-new :
    (acc : Properties) (k : String) (v : Amf0Value)
    → Apart k acc
    → insert_property acc k v ≡ joined acc (property k v no_properties)
unfolding insert_property joined
insert_property-new no_properties k v h = refl
insert_property-new (property j old rest) k v (n, h) =
    rw n (ap (property j old) (insert_property-new rest k v h))

pub apart_sym : (j k : String) → (j =ˢ k) ≡ false → (k =ˢ j) ≡ false
apart_sym j k h = elim (Bool-cases (k =ˢ j)) [
  | inl y ↦ cc ((eq_iff j k).1 (sym ((eq_iff k j).0 y)))
  | inr n ↦ n
]

Apart-joined :
    (acc : Properties) (j k : String) (v : Amf0Value)
    → Apart k acc
    → (j =ˢ k) ≡ false
    → Apart k (joined acc (property j v no_properties))
unfolding joined
Apart-joined no_properties j k v h n = (n, tt)
Apart-joined (property i old rest) j k v (m, h) n = (m, Apart-joined rest j k v h n)

Disjoint-joined :
    (acc rest : Properties) (k : String) (v : Amf0Value)
    → Disjoint acc rest
    → Apart k rest
    → Disjoint (joined acc (property k v no_properties)) rest
unfolding Disjoint
Disjoint-joined acc no_properties k v d a = tt
Disjoint-joined acc (property j w rest) k v (x, d) (n, a) =
    (Apart-joined acc k j v x (apart_sym j k n), Disjoint-joined acc rest k v d a)

joined_assoc : (ps qs rs : Properties) → joined (joined ps qs) rs ≡ joined ps (joined qs rs)
unfolding joined
joined_assoc no_properties qs rs = refl
joined_assoc (property k v ps) qs rs = ap (property k v) (joined_assoc ps qs rs)

-- All keys differ.
unfoldable pub AllApart : Properties → Type 0
AllApart no_properties = Unit {0}
AllApart (property k v rest) = Apart k rest × AllApart rest

joined-none : (acc : Properties) → joined acc no_properties ≡ acc
unfolding joined
joined-none no_properties = refl
joined-none (property k v rest) = ap (property k v) (joined-none rest)

pub insert_all-joined :
    (acc ps : Properties) → Disjoint acc ps → AllApart ps → insert_all acc ps ≡ joined acc ps
unfolding insert_all joined Disjoint AllApart
insert_all-joined acc no_properties d a = sym (joined-none acc)
insert_all-joined acc (property k v rest) (x, d) (n, a) = rw (insert_property-new acc k v x) (
    insert_all-joined (joined acc (property k v no_properties)) rest
      (Disjoint-joined acc rest k v d n) a
    ∙ joined_assoc acc (property k v no_properties) rest)
