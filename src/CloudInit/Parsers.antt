-- ===== src/CloudInit/Parsers.antt =====
-- What pkg/cloudinit calls to parse: ghodss/yaml, encoding/json and compress/gzip, and the parts of
-- strings and strconv that depend on the tables of Unicode.
use cluster_api_provider_kub.Prelude.{String, List, Option, Bool}
use cluster_api_provider_kub.Go.{Error, Result}
use cluster_api_provider_kub.Go.Text.{Bytes}

mutual
  -- A JSON value; a number keeps its text.
  pub data Json : Type 0 where
    null : Json
    bool : Bool → Json
    num : Bytes → Json
    str : Bytes → Json
    arr : Items → Json
    obj : Fields → Json

  pub data Items : Type 0 where
    nil : Items
    cons : Json → Items → Items

  pub data Fields : Type 0 where
    end : Fields
    field : Bytes → Json → Fields → Fields

-- pkg/cloudinit/writefiles.go: an entry of `write_files`.
pub record File : Type 0 where
  pub path : Bytes
  pub encoding : Bytes
  pub owner : Bytes
  pub permissions : Bytes
  pub content : Bytes
  pub append : Bool

pub record Parsers : Type 0 where
  -- `yaml.Unmarshal` into a map: the error, if the text is no YAML mapping.
  pub yaml_map : Bytes → Option Error
  -- `yaml.Unmarshal` into a `writeFilesAction`: the entries of `write_files`.
  pub yaml_write_files : Bytes → Result (List File)
  -- `yaml.Unmarshal` into a `runCmd`: the JSON forms of the entries of `runcmd`, each of which it
  -- gives to `Cmd.UnmarshalJSON`.
  pub yaml_runcmd : Bytes → Result (List Json)
  -- The value of a JSON text, or `none` for a `SyntaxError`.
  pub json : Bytes → Option Json
  -- `gzip.NewReader` on a buffer, as the bytes that the reader has still to inflate, and the
  -- `ReadFrom` of such a reader.
  pub new_reader : Bytes → Result Bytes
  pub read_from : Bytes → Result Bytes
  -- `strings.ToLower` on a run of bytes from 128 up.
  pub lower_run : Bytes → Bytes
  -- `%q` on a run of bytes from 127 up.
  pub quote_run : Bytes → Bytes
  -- The text of an error of encoding/json.
  pub json_error : Bytes → String
