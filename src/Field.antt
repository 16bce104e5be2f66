-- ===== src/Field.antt =====
-- workitem/field_definition.go, simple_type.go, enum_type.go and list_type.go: the types of the
-- fields of a work item, and the conversion of field values between the REST layer and the store.
pub mod Value
pub mod Kind
pub mod Rendering
pub mod Simple
pub mod Enum
pub mod ListOf
pub mod Definition
