-- ===== src/Api.antt =====
-- api/: the custom resources, their setters and the conversion between their versions.
pub mod V1alpha3
pub mod V1alpha2
pub mod Registration
