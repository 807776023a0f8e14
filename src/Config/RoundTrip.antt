-- ===== src/Config/RoundTrip.antt =====
-- Reading a configuration back.
use cpp_database.Prelude.{ℕ, ◌≡◌, ◌<◌, ◌^◌, some, if◌then◌else◌}
use cpp_database.Prelude.Text.{Bytes, same}
use cpp_database.Config.{Yaml, MysqlClientConf, encode, decode, read_string, read_number}

-- What the YAML library documents of assigned members and of scalars.
pub record YamlLaws (yaml : Yaml) : Type 0 where
  pub index-assign :
      (n : yaml.Node) (key key' : Bytes) (value : yaml.Node)
      → yaml.index (yaml.assign n key value) key'
        ≡ (if same key key' then some value else yaml.index n key')
  pub as_string-of_string : (s : Bytes) → yaml.as_string (yaml.of_string s) ≡ some s
  pub as_number-of_number :
      (bits n : ℕ) → n < 2 ^ bits → yaml.as_number bits (yaml.of_number n) ≡ some n

-- Where the YAML library returns assigned members and scalars, a configuration whose numbers fit
-- their types is read back from its encoding, whatever was in the object that it is read into.
pub decode-encode :
    (yaml : Yaml) (laws : YamlLaws yaml) (conf old : MysqlClientConf)
    → conf.thread_num < 2 ^ 64
    → conf.num_shard_group < 2 ^ 32
    → decode ⦃yaml = yaml⦄ (encode ⦃yaml = yaml⦄ conf) old ≡ some conf
unfolding decode encode read_string read_number
decode-encode yaml laws conf old t n = simp (
  decode,
  encode,
  read_string,
  read_number,
  laws.index-assign,
  laws.as_string-of_string,
  laws.as_number-of_number 64 conf.thread_num t,
  laws.as_number-of_number 32 conf.num_shard_group n,
)
