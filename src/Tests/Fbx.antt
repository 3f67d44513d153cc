-- ===== src/Tests/Fbx.antt =====
-- A run of metadata of app/fbx_helper.c, and the instance of its theorem.
use whitenoise_linux.Base.Int.{pos}
use whitenoise_linux.Base.{
  ◌≤◌, [], ◌∷◌, true, false, none, some, codes, length, replicate, ◌≡◌, refl,
}
use whitenoise_linux.Decoder.Wire.{model_output_max, put}
use whitenoise_linux.Fbx.Writer.{
  measuring, filling, bytes, Float, f32, f64, each_good, each, floats, string,
}
use whitenoise_linux.Fbx.Metadata.{
  Scene, head_words, geometry, take_entry, texture, material, metadata,
}
use whitenoise_linux.Fbx.Whole.{metadata_filled}

abbrev zero_float : Float
zero_float = record { bits = 0; finite = true }

-- One triangle, a material with one texture, and a take.
abbrev triangle : Scene
triangle = record {
  tris = 1;
  bones = pos 0;
  anims = pos 1;
  mats = pos 1;
  has_uv = true;
  has_skin = false;
  positions = replicate 9 zero_float;
  normals = replicate 9 zero_float;
  uvs = replicate 6 zero_float;
  weights = [];
  channels = replicate 12 zero_float;
  bone_indices = [];
  mat_indices = 0 ∷ [];
  takes = record { begin = zero_float; end = zero_float; name = some (codes "t") } ∷ [];
  materials =
      record {
        name = none;
        textures =
            record {
              reference = 0;
              clamp_u = 0;
              clamp_v = 1;
              uv = replicate 6 zero_float;
              tint = replicate 4 zero_float;
              path = some (codes "p");
            }
            ∷ [];
      }
      ∷ [];
}

measured : (metadata measuring triangle).size ≡ 262
unfolding metadata material texture take_entry geometry head_words string floats each each_good f32
    f64 bytes put
measured = refl

good_pass : (metadata (filling (metadata measuring triangle).size) triangle).good ≡ true
unfolding metadata material texture take_entry geometry head_words string floats each each_good f32
    f64 bytes put
good_pass = refl

metadata_filled_example :
    let m = metadata measuring triangle in
    let f = metadata (filling m.size) triangle in
    (m.good ≡ true) × (f.size ≡ m.size) × (length f.content ≡ m.size) × (m.size ≤ model_output_max)
metadata_filled_example = metadata_filled triangle good_pass
