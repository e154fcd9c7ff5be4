-- ===== src/Tests/Store.antt =====
-- A map that holds its sources and layers as functions of their names.
use traffic_service.RouteMap.Layers.{MapApi, SourceData}
use traffic_service.Base.{
  if◌then◌else◌, Text, ===_refl, ◌===◌, ◌≡◌, refl, false, Option, none, some,
}

abbrev pub Store : Type 0
Store = (Text → Option SourceData) × (Text → Option Text)

abbrev change {ℓ} : {A : Type ℓ} → Text → A → (Text → A) → Text → A
change i a f j = if i === j then a else f j

pub change_self {ℓ} : {A : Type ℓ} (i : Text) (a : A) (f : Text → A) → change i a f i ≡ a
change_self i a f = rw (===_refl i) refl

pub change_other {ℓ} :
    {A : Type ℓ} (i j : Text) (a : A) (f : Text → A) → (i === j) ≡ false → change i a f j ≡ f j
change_other i j a f h = rw h refl

abbrev pub store : MapApi Store
store = record {
  get_source = λ i m. m.0 i;
  get_layer = λ i m. m.1 i;
  add_source = λ i d m. (change i (some d) m.0, m.1);
  set_data = λ i d m. (change i (some d) m.0, m.1);
  remove_source = λ i m. (change i none m.0, m.1);
  add_layer = λ spec m. (m.0, change spec.id (some spec.source) m.1);
  remove_layer = λ i m. (m.0, change i none m.1);
  source_added = λ i d m h. change_self i (some d) m.0;
  source_set = λ i d e m h. change_self i (some d) m.0;
  source_removed = λ i m h. change_self i none m.0;
  layer_added = λ spec d m h e. change_self spec.id (some spec.source) m.1;
  layer_removed = λ i m. change_self i none m.1;
  sources_apart = λ i j d m h. (
    change_other i j (some d) m.0 h,
    change_other i j (some d) m.0 h,
    change_other i j none m.0 h,
  );
  layers_apart = λ spec i j m.
      (λ h. change_other spec.id j (some spec.source) m.1 h, λ h. change_other i j none m.1 h);
  layers_keep_sources = λ spec i j m. (refl, refl);
  sources_keep_layers = λ i j d m. (refl, refl, refl);
}

abbrev pub empty_store : Store
empty_store = (λ i. none, λ i. none)
