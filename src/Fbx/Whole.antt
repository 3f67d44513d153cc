-- ===== src/Fbx/Whole.antt =====
-- Both passes of metadata of app/fbx_helper.c from end to end.
use whitenoise_linux.Base.Int.{value}
use whitenoise_linux.Base.{ℕ, ◌≤◌, List, true, not, ◌==◌, length, codes, ◌≡◌, refl, sym, arith}
use whitenoise_linux.Decoder.Wire.{model_output_max}
use whitenoise_linux.Fbx.Writer.{Writer, measuring, filling, spoiled, bytes, word, each, floats}
use whitenoise_linux.Fbx.Metadata.{
  Scene, Take, Texture, Material, head_words, geometry, take_entry, texture, material, metadata,
}
use whitenoise_linux.Fbx.Measure.{Sim, bytes-Sim}
use whitenoise_linux.Fbx.Passes.{
  word-Sim, Sim-if, spoiled-Sim, f64-Sim, string-Sim, each-Sim, each_good-Sim, floats-Sim,
}

module _ (capacity : ℕ) where
  head_words-Sim :
      (s : Scene) (m f : Writer) → Sim capacity m f → Sim capacity (head_words m s) (head_words f s)
  unfolding head_words
  head_words-Sim s m f sim =
      each-Sim capacity word (λ v m f h. word-Sim capacity v m f h) _ (bytes m (codes "FBM1") 4)
        (bytes f (codes "FBM1") 4) (bytes-Sim capacity m f (codes "FBM1") (codes "FBM1") 4 refl sim)

  words-Sim :
      (vs : List ℕ) (m f : Writer)
      → Sim capacity m f
      → Sim capacity (each word m vs) (each word f vs)
  words-Sim vs m f sim = each-Sim capacity word (λ v m f h. word-Sim capacity v m f h) vs m f sim

  geometry-Sim :
      (s : Scene) (m f : Writer) → Sim capacity m f → Sim capacity (geometry m s) (geometry f s)
  unfolding geometry
  geometry-Sim s m f sim =
      let s₁ =
        floats-Sim capacity s.normals (floats m s.positions) (floats f s.positions)
          (floats-Sim capacity s.positions m f sim) in
      let s₂ = Sim-if capacity s.has_uv _ _ _ _ (floats-Sim capacity s.uvs _ _ s₁) s₁ in
      let s₃ =
        Sim-if capacity s.has_skin _ _ _ _
          (floats-Sim capacity s.weights _ _ (words-Sim s.bone_indices _ _ s₂)) s₂ in
      Sim-if capacity (not (value s.mats == 0)) _ _ _ _
        (floats-Sim capacity s.channels _ _ (words-Sim s.mat_indices _ _ s₃)) s₃

  take_entry-Sim :
      (t : Take) (m f : Writer) → Sim capacity m f → Sim capacity (take_entry m t) (take_entry f t)
  unfolding take_entry
  take_entry-Sim t m f sim =
      string-Sim capacity t.name _ _ (f64-Sim capacity t.end _ _ (f64-Sim capacity t.begin m f sim))

  texture-Sim :
      (t : Texture) (m f : Writer) → Sim capacity m f → Sim capacity (texture m t) (texture f t)
  unfolding texture
  texture-Sim t m f sim = string-Sim capacity t.path _ _ (
      floats-Sim capacity t.tint _ _ (
        floats-Sim capacity t.uv _ _ (
          word-Sim capacity t.clamp_v _ _
            (word-Sim capacity t.clamp_u _ _ (word-Sim capacity t.reference m f sim)))))

  material-Sim :
      (a : Material) (m f : Writer) → Sim capacity m f → Sim capacity (material m a) (material f a)
  unfolding material
  material-Sim a m f sim =
      each-Sim capacity texture texture-Sim a.textures _ _ (string-Sim capacity a.name m f sim)

  metadata-Sim :
      (s : Scene) (m f : Writer) → Sim capacity m f → Sim capacity (metadata m s) (metadata f s)
  unfolding metadata
  metadata-Sim s m f sim =
      Sim-if capacity _ (spoiled m) _ (spoiled f) _ (spoiled-Sim capacity (spoiled m) f) (
        each_good-Sim capacity material material-Sim s.materials _ _ (
          each_good-Sim capacity take_entry take_entry-Sim s.takes _ _
            (geometry-Sim s _ _ (head_words-Sim s m f sim))))

-- When the second pass of metadata succeeds in the memory that the first one measured, it fills
-- that memory exactly, with no more than the largest reply that the parent takes.
pub metadata_filled :
    (s : Scene)
    → let m = metadata measuring s in
      let f = metadata (filling m.size) s in
      f.good ≡ true
      → (m.good ≡ true)
        × (f.size ≡ m.size)
        × (length f.content ≡ m.size)
        × (m.size ≤ model_output_max)
metadata_filled s e =
    let n = (metadata measuring s).size in
    let v =
      metadata-Sim n s measuring (filling n)
        (λ good. record {
          measures = refl;
          fills = refl;
          both_good = refl;
          same_size = refl;
          filled = refl;
          within = omega arith;
          small = omega arith;
        })
        e in
    (
      v.both_good,
      sym v.same_size,
      omega (arith, v.filled, v.same_size),
      omega (arith, v.small, v.same_size),
    )
