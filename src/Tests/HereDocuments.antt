-- ===== src/Tests/HereDocuments.antt =====
-- A here-document at a concrete input.
use cluster_api_provider_kub.Prelude.{List, [], ◌∷◌, ◌++◌, ◌≡◌, refl, some, false, codes}
use cluster_api_provider_kub.Go.Text.{Bytes}
use cluster_api_provider_kub.CloudInit.Parsers.{File}
use cluster_api_provider_kub.CloudInit.WriteFiles.{file_lines}
use cluster_api_provider_kub.CloudInit.HereDocuments.{
  IsOpen, split_lines, read_document, document_text, with_line_break, before_document,
  file_lines-read_document,
}
use cluster_api_provider_kub.Tests.MachineRuns.{machine_runs}
use cluster_api_provider_kub.Tests.Fixtures.{simple_parsers}

abbrev written_file : File
written_file = record {
  path = codes "/etc/motd";
  encoding = [];
  owner = codes "kube:kube";
  permissions = codes "0600";
  content = codes "The\nEND.";
  append = false;
}

written_content-IsOpen : IsOpen (split_lines (codes "The\nEND."))
unfolding machine_runs split_lines
written_content-IsOpen = (refl, (refl, tt))

file_lines-read_document_example :
    (document : Bytes) × (file_lines simple_parsers written_file (codes "The\nEND.")
      ≡ before_document simple_parsers written_file ++ codes " << END" ++ 10 ∷ document)
    × (lines : List Bytes) × (read_document (split_lines document) ≡ some lines)
    × (document_text lines ≡ with_line_break (codes "The\nEND."))
file_lines-read_document_example =
    file_lines-read_document simple_parsers written_file (codes "The\nEND.") written_content-IsOpen
