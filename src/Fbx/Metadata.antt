-- ===== src/Fbx/Metadata.antt =====
-- metadata of app/fbx_helper.c over what the parser found.
use whitenoise_linux.Base.Int.{ℤ, pos, negsuc, value}
use whitenoise_linux.Base.{
  ℕ, ◌+◌, List, [], ◌∷◌, Bytes, Bool, true, not, ◌||◌, Option, ltb, ◌==◌, if◌then◌else◌, codes,
}
use whitenoise_linux.Fbx.Writer.{
  Writer, spoiled, bytes, word, Float, f64, each_good, each, floats, string,
}

abbrev pub max_tris : ℕ
max_tris = 2000000

abbrev pub max_items : ℕ
max_items = 65536

pub record Take : Type 0 where
  pub begin : Float
  pub end : Float
  pub name : Option Bytes

pub record Texture : Type 0 where
  pub reference : ℕ
  pub clamp_u : ℕ
  pub clamp_v : ℕ
  pub uv : List Float
  pub tint : List Float
  pub path : Option Bytes

pub record Material : Type 0 where
  pub name : Option Bytes
  pub textures : List Texture

-- The arrays of the model have as many entries as its counts say: 9, 6 or 3 for each triangle, 12
-- for each material.
pub record Scene : Type 0 where
  pub tris : ℕ
  pub bones : ℤ
  pub anims : ℤ
  pub mats : ℤ
  pub has_uv : Bool
  pub has_skin : Bool
  pub positions : List Float
  pub normals : List Float
  pub uvs : List Float
  pub weights : List Float
  pub channels : List Float
  pub bone_indices : List ℕ
  pub mat_indices : List ℕ
  pub takes : List Take
  pub materials : List Material

-- n < 0 || n > FBX_MAX_ITEMS
abbrev pub bad_count : ℤ → Bool
bad_count (pos n) = ltb max_items n
bad_count (negsuc n) = true

abbrev pub flags : Scene → ℕ
flags s = (if s.has_uv then 1 else 0) + (if s.has_skin then 2 else 0)

unfoldable pub head_words : Writer → Scene → Writer
head_words w s =
    each word (bytes w (codes "FBM1") 4)
      (s.tris ∷ value s.bones ∷ value s.anims ∷ value s.mats ∷ flags s ∷ 0 ∷ 0 ∷ [])

unfoldable pub geometry : Writer → Scene → Writer
geometry w s =
    let w₁ = floats (floats w s.positions) s.normals in
    let w₂ = (if s.has_uv then floats w₁ s.uvs else w₁) in
    let w₃ = (if s.has_skin then floats (each word w₂ s.bone_indices) s.weights else w₂) in
    if not (value s.mats == 0) then floats (each word w₃ s.mat_indices) s.channels else w₃

unfoldable pub take_entry : Writer → Take → Writer
take_entry w t = string (f64 (f64 w t.begin) t.end) t.name

unfoldable pub texture : Writer → Texture → Writer
texture w t =
    string (floats (floats (word (word (word w t.reference) t.clamp_u) t.clamp_v) t.uv) t.tint)
      t.path

unfoldable pub material : Writer → Material → Writer
material w m = each texture (string w m.name) m.textures

-- metadata
unfoldable pub metadata : Writer → Scene → Writer
metadata w s =
    if s.tris == 0
      || ltb max_tris s.tris
      || bad_count s.bones
      || bad_count s.anims
      || bad_count s.mats
    then spoiled w
    else each_good material (each_good take_entry (geometry (head_words w s) s) s.takes) s.materials
