-- ===== src/Contracts.antt =====
-- The boundary data of src/civitas/contracts: JSON values, enumerations, plans, Jury records,
-- workflow events. Instants and durations are microseconds, amounts of money and of cost are
-- whole minor units, scores with two decimals are hundredths.
mod Json
mod Claims
mod Plans
mod Events
pub use Json.{
  JsonValue, JsonArray, JsonObject, null, bool, num, str, arr, obj, nil, cons, end, field, get,
}
unfoldable pub use Json.{truthy, same_value, same_items, within_object, same_object}
pub use Claims.*
pub use Plans.*
pub use Events.*
