-- ===== src/Schemas/Samsungce.antt =====
-- The classes of src/capabilities/samsungce.cpp and their headers below include/smartthings4cpp/capabilities/samsungce.
pub mod AccessibilityToConnectionState
pub mod DetergentAutoReplenishmentToDishwasherJobState
pub mod DishwasherOperationToEnergyPlanner
pub mod FoodDefrostToSelfCheck
pub mod SoftenerAutoReplenishmentToWasherBubbleSoak
pub mod WasherCycleToWelcomeMessage
